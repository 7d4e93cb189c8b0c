-- ===== src/Parser/RoundTrip.antt =====
-- Parsing what a user writes gives back the arguments.
use mathlib.Core.List.{append_assoc}
use mathlib.Core.Path.{ap₂}
use meeseeks_box.Base.{
  ℕ, ◌≡◌, refl, ap, ◌∙◌, sym, ◌≢◌, ◌<◌, true, List, [], ◌∷◌, ◌++◌, map, Bytes, str, join, All,
  arith, ok, ◌==◌,
}
use meeseeks_box.Base.Trim.{IsSolid, is_space, trim_space, trim_space-solid, trim_space-nil}
use meeseeks_box.Parser.{rune, is_quote, scan, finish, parse}
use meeseeks_box.Parser.Pieces.{
  Piece, bare, quoted, IsPlain, IsPiece, render_piece, render, encode, value, ready, finish_piece,
  scan_piece,
}

finish_pieces :
    (p : Piece) (ps : List Piece) (args : List Bytes) (quote : Bytes)
    → All IsPiece (p ∷ ps)
    → finish (scan (render (p ∷ ps)) (ready args quote)) ≡ ok (args ++ map value (p ∷ ps))
unfolding join
finish_pieces p [] args quote (h, _) = finish_piece p args quote h
finish_pieces p (r ∷ ps) args quote (h, hs) =
    let (quote', e) = scan_piece p args quote (render (r ∷ ps)) h in
    rw e (
      finish_pieces r ps (args ++ value p ∷ []) quote' hs
      ∙ ap (λ l. ok l) (append_assoc args (value p ∷ []) (map value (r ∷ ps))))

-- The ends of what a user writes are solid, so that nothing of it is trimmed.
abbrev StartsSolid : Bytes → Type 0
StartsSolid s = (c : ℕ) × (r : Bytes) × (s ≡ c ∷ r) × IsSolid c

abbrev pub EndsSolid : Bytes → Type 0
EndsSolid s = (init : Bytes) × (d : ℕ) × (s ≡ init ++ d ∷ []) × IsSolid d

quote-IsSolid : (q : ℕ) → is_quote q ≡ true → IsSolid q
unfolding is_quote is_space
quote-IsSolid q h = ground arith

StartsSolid-append : (s t : Bytes) → StartsSolid s → StartsSolid (s ++ t)
StartsSolid-append s t (c, r, e, h) = (c, r ++ t, ap (λ u. u ++ t) e, h)

pub EndsSolid-append : (s t : Bytes) → EndsSolid t → EndsSolid (s ++ t)
EndsSolid-append s t (init, d, e, h) =
    (s ++ init, d, ap (λ u. s ++ u) e ∙ sym (append_assoc s init (d ∷ [])), h)

pub word-EndsSolid : (w : Bytes) → w ≢ [] → All IsPlain w → EndsSolid w
word-EndsSolid [] n h = absurd (n refl)
word-EndsSolid (c ∷ []) n (p, _) = ([], c, refl, p.0)
word-EndsSolid (c ∷ d ∷ w) n (_, h) =
    EndsSolid-append (c ∷ []) (d ∷ w) (word-EndsSolid (d ∷ w) (cc) h)

piece-StartsSolid : (p : Piece) → IsPiece p → StartsSolid (render_piece p)
piece-StartsSolid (bare []) (n, h) = absurd (n refl)
piece-StartsSolid (bare (c ∷ w)) (n, (p, h)) = (c, w, refl, p.0)
piece-StartsSolid (quoted q t) (h, k) = (q, t ++ q ∷ [], refl, quote-IsSolid q h)

piece-EndsSolid : (p : Piece) → IsPiece p → EndsSolid (render_piece p)
piece-EndsSolid (bare w) (n, h) = word-EndsSolid w n h
piece-EndsSolid (quoted q t) (h, k) = (q ∷ t, q, refl, quote-IsSolid q h)

render-StartsSolid : (p : Piece) (ps : List Piece) → IsPiece p → StartsSolid (render (p ∷ ps))
unfolding join
render-StartsSolid p [] h = piece-StartsSolid p h
render-StartsSolid p (r ∷ ps) h =
    StartsSolid-append (render_piece p) (32 ∷ render (r ∷ ps)) (piece-StartsSolid p h)

render-EndsSolid :
    (p : Piece) (ps : List Piece) → All IsPiece (p ∷ ps) → EndsSolid (render (p ∷ ps))
unfolding join
render-EndsSolid p [] (h, _) = piece-EndsSolid p h
render-EndsSolid p (r ∷ ps) (h, hs) =
    EndsSolid-append (render_piece p) (32 ∷ render (r ∷ ps))
      (EndsSolid-append (32 ∷ []) (render (r ∷ ps)) (render-EndsSolid r ps hs))

trim_space-render : (ps : List Piece) → All IsPiece ps → trim_space (render ps) ≡ render ps
unfolding join
trim_space-render [] _ = trim_space-nil
trim_space-render (p ∷ ps) h =
    let (c, r, e, solid) = render-StartsSolid p ps h.0 in
    let (init, d, e', solid') = render-EndsSolid p ps h in
    trim_space-solid (render (p ∷ ps)) c r init d e solid e' solid'

-- Bare words and quoted texts, one space apart, are parsed to the words and to the texts, the
-- bytes of a quoted text each encoded as the code point of that number.
pub parse-render : (ps : List Piece) → All IsPiece ps → parse (render ps) ≡ ok (map value ps)
unfolding parse
parse-render [] h = unfold join scan finish ◌==◌ in rw trim_space-nil
parse-render (p ∷ ps) h = rw (trim_space-render (p ∷ ps) h) (finish_pieces p ps [] (str "\"") h)

encode-ascii : (t : Bytes) → All (λ c. c < 128) t → encode t ≡ t
unfolding rune
encode-ascii [] h = refl
encode-ascii (c ∷ t) (p, h) = ground (arith, encode-ascii t h)

encode_quoted :
    (args : List Bytes)
    → All (All (λ c. (c < 128) × (c ≢ b'"'))) args
    → All IsPiece (map (quoted b'"') args) × (map value (map (quoted b'"') args) ≡ args)
unfolding is_quote
encode_quoted [] h = (tt, refl)
encode_quoted (a ∷ args) (h, hs) =
    let (pieces, values) = encode_quoted args hs in
    (((refl, All_right a h), pieces), ap₂ (λ x xs. x ∷ xs) (encode-ascii a (All_left a h)) values)
  where
    All_left : (t : Bytes) → All (λ c. (c < 128) × (c ≢ b'"')) t → All (λ c. c < 128) t
    All_left [] _ = tt
    All_left (c ∷ t) (p, k) = (p.0, All_left t k)

    All_right : (t : Bytes) → All (λ c. (c < 128) × (c ≢ b'"')) t → All (λ c. c ≢ b'"') t
    All_right [] _ = tt
    All_right (c ∷ t) (p, k) = (p.1, All_right t k)

-- Whatever the arguments, if they are ASCII with no double quote in them (empty ones, blanks,
-- backslashes and the other quotes included), then parsing them each in double quotes, one
-- space apart, gives back the arguments.
pub parse-quoted_args :
    (args : List Bytes)
    → All (All (λ c. (c < 128) × (c ≢ b'"'))) args
    → parse (render (map (quoted b'"') args)) ≡ ok args
parse-quoted_args args h =
    let (pieces, values) = encode_quoted args h in
    parse-render (map (quoted b'"') args) pieces ∙ ap (λ l. ok l) values
