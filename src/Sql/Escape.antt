-- ===== src/Sql/Escape.antt =====
-- lib/src/sql/escape.rs: how the name of a table is written, `escape_ident`.
use Prim.Native.Char.{Char, code}
use Prim.Native.Nat.{◌%◌}
use Prim.Native.String.{String, [], ◌∷◌, ◌++◌}
use surreal_dbservice.Base.{ℕ, Bool, true, ◌&&◌, ◌||◌, if◌then◌else◌, ◌==◌, leb}

-- `chr as u8` keeps the last eight bits
abbrev pub as_u8 : Char → ℕ
as_u8 c = code c % 256

-- `is_alphanumeric` of nom: an ASCII digit or letter
abbrev pub is_alphanumeric : ℕ → Bool
is_alphanumeric b = (leb 48 b && leb b 57) || (leb 65 b && leb b 90) || (leb 97 b && leb b 122)

-- lib/src/sql/common.rs
abbrev pub val_char : Char → Bool
val_char c = is_alphanumeric (as_u8 c) || code c == 95

-- no character leaves the loop of `escape_ident`
unfoldable pub is_plain : String → Bool
is_plain [] = true
is_plain (c ∷ s) = val_char c && is_plain s

-- `s.replace(BACKTICK, BACKTICK_ESC)`
unfoldable pub escaped : String → String
escaped [] = []
escaped (c ∷ s) = let rest = escaped s in if code c == 96 then "\\`" ++ rest else c ∷ rest

unfoldable pub escape_ident : String → String
unfolding is_plain escaped
escape_ident s = if is_plain s then s else "`" ++ escaped s ++ "`"
