-- ===== src/Parser/Failures.antt =====
-- When parsing fails, and an escape that joins two arguments.
use meeseeks_box.Base.{
  ℕ, ◌≡◌, refl, ◌≢◌, false, List, [], ◌∷◌, ◌++◌, Bytes, str, All, arith, ok, ◌==◌, if◌then◌else◌,
}
use meeseeks_box.Base.Trim.{is_space, trim_space, trim_space-solid, trim_space-All}
use meeseeks_box.Parser.{
  quotes, Scan, rune, is_quote, step_arg, step_start, step_open, step, scan, initial, finish, parse,
}
use meeseeks_box.Parser.Pieces.{IsPlain, in_start, scan_bare, scan-cons}
use meeseeks_box.Parser.RoundTrip.{word-EndsSolid, EndsSolid-append}

step-ne-quotes :
    (c : ℕ) (s : Scan) → is_quote c ≡ false → s.state ≢ quotes → (step c s).state ≢ quotes
unfolding step step_arg step_start step_open
step-ne-quotes c s h n = ground arith

scan-ne-quotes :
    (t : Bytes) (s : Scan)
    → All (λ c. is_quote c ≡ false) t
    → s.state ≢ quotes
    → (scan t s).state ≢ quotes
unfolding scan
scan-ne-quotes [] s h n = n
scan-ne-quotes (c ∷ t) s (p, h) n = scan-ne-quotes t (step c s) h (step-ne-quotes c s p n)

abbrev collected : Scan → List Bytes
collected s = if s.current == [] then s.args else s.args ++ s.current ∷ []

finish-eq-ok : (s : Scan) → s.state ≢ quotes → finish s ≡ ok (collected s)
unfolding finish
finish-eq-ok s n = ground arith

-- A command with no quote character is parsed, whatever else it holds.
pub parse_total :
    (command : Bytes)
    → All (λ c. is_quote c ≡ false) command
    → (args : List Bytes) × (parse command ≡ ok args)
unfolding parse
parse_total command h =
    let s = scan (trim_space command) initial in
    (
      collected s,
      finish-eq-ok s (
          scan-ne-quotes (trim_space command) initial
            (trim_space-All (λ c. is_quote c ≡ false) command h) (cc)),
    )

trim_space-escaped :
    (c : ℕ) (w : Bytes) → w ≢ [] → All IsPlain w → trim_space (92 ∷ c ∷ 32 ∷ w) ≡ 92 ∷ c ∷ 32 ∷ w
unfolding is_space
trim_space-escaped c w n h =
    let (init, d, e, solid) = EndsSolid-append (92 ∷ c ∷ 32 ∷ []) w (word-EndsSolid w n h) in
    trim_space-solid (92 ∷ c ∷ 32 ∷ w) 92 (c ∷ 32 ∷ w) init d refl (omega arith, refl) e solid

step-escaped : (c : ℕ) → IsPlain c → step c (step 92 initial) ≡ in_start [] (c ∷ []) (str "\"")
unfolding step step_open rune
step-escaped c p = ground arith

-- An escape at the start of an argument does not leave the start state: a one-byte argument
-- that is escaped is joined with the word behind it, over the space.
pub parse-escaped_merge :
    (c : ℕ) (w : Bytes)
    → IsPlain c
    → w ≢ []
    → All IsPlain w
    → parse (92 ∷ c ∷ 32 ∷ w) ≡ ok ((c ∷ w) ∷ [])
unfolding parse
parse-escaped_merge c w p n h =
    rw
      (
        trim_space-escaped c w n h,
        scan-cons,
        scan-cons,
        step-escaped c p,
        scan_bare [] (c ∷ []) w (str "\"") n h,
      )
      (unfold finish ◌==◌ in refl)
