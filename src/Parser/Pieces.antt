-- ===== src/Parser/Pieces.antt =====
-- A command as a user writes it: bare words and quoted arguments, one space apart.
use mathlib.Core.List.{append-nil, append_assoc}
use meeseeks_box.Base.{
  ℕ, ◌<◌, ◌≡◌, refl, ap, ◌∙◌, ◌≢◌, true, false, List, [], ◌∷◌, ◌++◌, map, Bytes, str, join, ◌==◌,
  All, arith, ok,
}
use meeseeks_box.Base.Trim.{IsSolid, is_space}
use meeseeks_box.Parser.{
  start, quotes, arg, Scan, rune, is_quote, step_quotes, step_arg, step_start, step_open, step,
  scan, finish,
}

pub data Piece : Type 0 where
  bare : Bytes → Piece
  quoted : ℕ → Bytes → Piece

abbrev pub IsPlain : ℕ → Type 0
IsPlain c = IsSolid c × (is_quote c ≡ false) × (c ≢ 92)

-- A bare word has no white space, quote or backslash; a quoted text lacks its own quote.
abbrev pub IsPiece : Piece → Type 0
IsPiece (bare w) = (w ≢ []) × All IsPlain w
IsPiece (quoted q t) = (is_quote q ≡ true) × All (λ c. c ≢ q) t

abbrev pub render_piece : Piece → Bytes
render_piece (bare w) = w
render_piece (quoted q t) = q ∷ (t ++ q ∷ [])

abbrev pub render : List Piece → Bytes
render ps = join (str " ") (map render_piece ps)

-- each byte as the UTF-8 encoding of the code point of that number
abbrev pub encode : Bytes → Bytes
encode [] = []
encode (c ∷ t) = rune c ++ encode t

abbrev pub value : Piece → Bytes
value (bare w) = w
value (quoted q t) = encode t

abbrev pub in_start : List Bytes → Bytes → Bytes → Scan
in_start args current q = record {
  args = args;
  state = start;
  current = current;
  quote = q;
  escape_next = false;
}

abbrev pub ready : List Bytes → Bytes → Scan
ready args q = in_start args [] q

abbrev in_quotes : List Bytes → Bytes → ℕ → Scan
in_quotes args current q = record {
  args = args;
  state = quotes;
  current = current;
  quote = rune q;
  escape_next = false;
}

abbrev pub in_arg : List Bytes → Bytes → Bytes → Scan
in_arg args current q = record {
  args = args;
  state = arg;
  current = current;
  quote = q;
  escape_next = false;
}

scan-append : (s t : Bytes) (x : Scan) → scan (s ++ t) x ≡ scan t (scan s x)
unfolding scan
scan-append [] t x = refl
scan-append (c ∷ s) t x = scan-append s t (step c x)

pub scan-cons : (c : ℕ) (t : Bytes) (x : Scan) → scan (c ∷ t) x ≡ scan t (step c x)
unfolding scan
scan-cons c t x = refl

is_quote-lt : (q : ℕ) → is_quote q ≡ true → q < 128
unfolding is_quote
is_quote-lt q h = ground arith

rune-ne : (c q : ℕ) → q < 128 → c ≢ q → rune c == rune q ≡ false
unfolding rune ◌==◌
rune-ne c q h n = ground arith

rune_refl : (q : ℕ) → q < 128 → rune q == rune q ≡ true
unfolding rune ◌==◌
rune_refl q h = ground arith

rune-ascii : (c : ℕ) → c < 128 → rune c ≡ c ∷ []
unfolding rune
rune-ascii c h = ground arith

scan_text :
    (args : List Bytes) (current t : Bytes) (q : ℕ)
    → q < 128
    → All (λ c. c ≢ q) t
    → scan t (in_quotes args current q) ≡ in_quotes args (current ++ encode t) q
unfolding scan step_quotes
scan_text args current [] q h k = rw append-nil
scan_text args current (c ∷ t) q h (n, k) = rw (rune-ne c q h n) (
    scan_text args (current ++ rune c) t q h k
    ∙ ap (λ u. in_quotes args u q) (append_assoc current (rune c) (encode t)))

step-open_quote :
    (args : List Bytes) (quote : Bytes) (q : ℕ)
    → is_quote q ≡ true
    → step q (ready args quote) ≡ in_quotes args [] q
unfolding step step_open
step-open_quote args quote q h = ground arith

step-close_quote :
    (args : List Bytes) (current : Bytes) (q : ℕ)
    → q < 128
    → step q (in_quotes args current q) ≡ ready (args ++ current ∷ []) (rune q)
unfolding step step_quotes
step-close_quote args current q h = rw (rune_refl q h)

step-plain_start :
    (args : List Bytes) (current quote : Bytes) (c : ℕ)
    → IsPlain c
    → step c (in_start args current quote) ≡ in_arg args (current ++ c ∷ []) quote
unfolding step step_open step_start is_space rune
step-plain_start args current quote c h = ground arith

step-plain_arg :
    (args : List Bytes) (current quote : Bytes) (c : ℕ)
    → IsPlain c
    → step c (in_arg args current quote) ≡ in_arg args (current ++ c ∷ []) quote
unfolding step step_open step_arg is_space rune
step-plain_arg args current quote c h = ground arith

step-blank_arg :
    (args : List Bytes) (current quote : Bytes)
    → step 32 (in_arg args current quote) ≡ ready (args ++ current ∷ []) quote
unfolding step step_open step_arg
step-blank_arg args current quote = refl

step-blank_start :
    (args : List Bytes) (quote : Bytes) → step 32 (ready args quote) ≡ ready args quote
unfolding step step_open step_start
step-blank_start args quote = refl

-- From the start state a quoted text becomes an argument.
scan_quoted :
    (args : List Bytes) (quote t : Bytes) (q : ℕ)
    → is_quote q ≡ true
    → All (λ c. c ≢ q) t
    → scan (q ∷ (t ++ q ∷ [])) (ready args quote) ≡ ready (args ++ encode t ∷ []) (rune q)
scan_quoted args quote t q h k =
    rw
      (
        scan-cons q (t ++ q ∷ []),
        step-open_quote args quote q h,
        scan-append,
        scan_text args [] t q (is_quote-lt q h) k,
      )
      (unfold scan in step-close_quote args (encode t) q (is_quote-lt q h))

scan_word :
    (args : List Bytes) (current w quote : Bytes)
    → All IsPlain w
    → scan w (in_arg args current quote) ≡ in_arg args (current ++ w) quote
unfolding scan
scan_word args current [] quote h = rw append-nil
scan_word args current (c ∷ w) quote (p, h) = rw (step-plain_arg args current quote c p) (
    scan_word args (current ++ c ∷ []) w quote h
    ∙ ap (λ u. in_arg args u quote) (append_assoc current (c ∷ []) w))

-- From the start state a word leaves the scan in it.
pub scan_bare :
    (args : List Bytes) (current w quote : Bytes)
    → w ≢ []
    → All IsPlain w
    → scan w (in_start args current quote) ≡ in_arg args (current ++ w) quote
unfolding scan
scan_bare args current [] quote n h = absurd (n refl)
scan_bare args current (c ∷ w) quote n (p, h) = rw (step-plain_start args current quote c p) (
    scan_word args (current ++ c ∷ []) w quote h
    ∙ ap (λ u. in_arg args u quote) (append_assoc current (c ∷ []) w))

-- At the end of the text the last piece is pushed.
pub finish_piece :
    (p : Piece) (args : List Bytes) (quote : Bytes)
    → IsPiece p
    → finish (scan (render_piece p) (ready args quote)) ≡ ok (args ++ value p ∷ [])
unfolding finish
finish_piece (bare []) args quote (n, h) = absurd (n refl)
finish_piece (bare (c ∷ w)) args quote (n, h) =
    rw (scan_bare args [] (c ∷ w) quote n h) (unfold ◌==◌ in refl)
finish_piece (quoted q t) args quote (h, k) =
    rw (scan_quoted args quote t q h k) (unfold ◌==◌ in refl)

abbrev quote_behind : Piece → Bytes → Bytes
quote_behind (bare w) quote = quote
quote_behind (quoted q t) quote = rune q

-- A space behind a piece pushes it, and the scan is ready for the next one.
pub scan_piece :
    (p : Piece) (args : List Bytes) (quote rest : Bytes)
    → IsPiece p
    → (quote' : Bytes) × (scan (render_piece p ++ 32 ∷ rest) (ready args quote)
        ≡ scan rest (ready (args ++ value p ∷ []) quote'))
scan_piece (bare w) args quote rest (n, h) = (
  quote,
  rw (
    scan-append w (32 ∷ rest),
    scan_bare args [] w quote n h,
    scan-cons,
    step-blank_arg args w quote,
  ),
)
scan_piece (quoted q t) args quote rest (h, k) = (
  rune q,
  rw (
    scan-append (q ∷ (t ++ q ∷ [])) (32 ∷ rest),
    scan_quoted args quote t q h k,
    scan-cons,
    step-blank_start,
  ),
)
