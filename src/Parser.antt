-- ===== src/Parser.antt =====
-- text/parser/parser.go: splitting the text of a command into its arguments, byte by byte.
pub mod Pieces
pub mod RoundTrip
pub mod Failures
use meeseeks_box.Base.{
  ℕ, ◌+◌, ◌/◌, ◌%◌, ◌≡◌, refl, Bool, true, false, ◌&&◌, ◌||◌, not, List, [], ◌∷◌, ◌++◌, Bytes, str,
  ◌==◌, eqb, ltb, if◌then◌else◌, Result, ok, err, unclosed_quote,
}
use meeseeks_box.Base.Trim.{trim_space}

pub data State : Type 0 where
  start quotes arg : State

-- the variables of `Parse`; `quote` is a string that holds the opening quote
pub record Scan : Type 0 where
  pub args : List Bytes
  pub state : State
  pub current : Bytes
  pub quote : Bytes
  pub escape_next : Bool

-- `string(c)` of a byte is the UTF-8 encoding of the code point c
unfoldable pub rune : ℕ → Bytes
rune c = if ltb c 128 then c ∷ [] else (192 + c / 64) ∷ (128 + c % 64) ∷ []

unfoldable pub is_quote : ℕ → Bool
is_quote c = eqb c b'"' || eqb c 39 || eqb c b'`'

unfoldable pub is_blank : ℕ → Bool
is_blank c = eqb c b' ' || eqb c 9

-- `args = append(args, current); current = ""; state = startState`
abbrev pub push_arg : Scan → Scan
push_arg s = record s { args = s.args ++ s.current ∷ []; current = []; state = start }

abbrev pub append : Scan → ℕ → Scan
append s c = record s { current = s.current ++ rune c }

-- the body of the loop in each state
step_quotes : ℕ → Scan → Scan
step_quotes c s = if not (rune c == s.quote) then append s c else push_arg s

step_arg : ℕ → Scan → Scan
unfolding is_blank
step_arg c s = if is_blank c then push_arg s else append s c

step_start : ℕ → Scan → Scan
unfolding is_blank
step_start c s = if is_blank c then s else append (record s { state = arg }) c

step_open : (ℕ → Scan → Scan) → ℕ → Scan → Scan
unfolding is_quote
step_open rest c s =
    if s.escape_next
    then append (record s { escape_next = false }) c
    else if eqb c 92
    then record s { escape_next = true }
    else if is_quote c
    then record s { state = quotes; quote = rune c }
    else rest c s

unfoldable pub step : ℕ → Scan → Scan
unfolding step_quotes step_arg step_start step_open
step c s = elim s.state [
  | quotes ↦ step_quotes c s
  | arg ↦ step_open step_arg c s
  | start ↦ step_open step_start c s
]

unfoldable pub scan : Bytes → Scan → Scan
unfolding step
scan [] s = s
scan (c ∷ command) s = scan command (step c s)

abbrev pub initial : Scan
initial = record { args = []; state = start; current = []; quote = str "\""; escape_next = false }

unfoldable pub finish : Scan → Result (List Bytes)
finish s = elim s.state [
  | quotes ↦ err unclosed_quote
  | _ ↦ if s.current == [] then ok s.args else ok (s.args ++ s.current ∷ [])
]

unfoldable pub parse : Bytes → Result (List Bytes)
unfolding scan finish
parse command = finish (scan (trim_space command) initial)
