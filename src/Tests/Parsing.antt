-- ===== src/Tests/Parsing.antt =====
-- Commands that are parsed (text/parser/parser.go).
use meeseeks_box.Base.{◌≡◌, refl, List, [], ◌∷◌, Bytes, str, ok, All, map, arith}
use meeseeks_box.Base.Trim.{is_space}
use meeseeks_box.Parser.{parse, is_quote}
use meeseeks_box.Parser.Pieces.{Piece, bare, quoted, IsPlain, IsPiece, render}
use meeseeks_box.Parser.RoundTrip.{parse-quoted_args}

b-IsPlain : IsPlain b'b'
unfolding is_space is_quote
b-IsPlain = ground arith

ls-IsPlain : All IsPlain (str "ls")
unfolding is_space is_quote
ls-IsPlain = ground arith

abbrev pieces : List Piece
pieces = bare (str "ls") ∷ quoted b'\'' (str "a \"b") ∷ []

pieces-IsPiece : All IsPiece pieces
unfolding is_quote is_space
pieces-IsPiece = ((ground arith, ls-IsPlain), ((refl, ground arith), tt))

abbrev texts : List Bytes
texts = str "ls" ∷ [] ∷ str "a 'b' \\" ∷ []

parse-quoted_args_example : parse (render (map (quoted b'"') texts)) ≡ ok texts
parse-quoted_args_example = parse-quoted_args texts (ground arith)
