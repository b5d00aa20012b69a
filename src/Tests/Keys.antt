-- ===== src/Tests/Keys.antt =====
-- lib/src/key on concrete keys, with ASCII text written byte by byte and ended by a zero byte.
use Prim.Native.Char.{Char, code}
use Prim.Native.String.{[] as empty, ◌∷◌ as ◌∷ₛ◌}
use text.Mathlib.TextEquality.{Char-path}
use surreal_dbservice.Base.{
  ℕ, String, ◌≡◌, Path, ◌<◌, refl, sym, ap, ◌∙◌, Bool, false, List, [], ◌∷◌, ◌++◌, arith, ltb,
  if◌then◌else◌,
}
use surreal_dbservice.Kvs.Engine.{Key}
use surreal_dbservice.Kvs.Order.{key_ltb}
use surreal_dbservice.Keys.{Storekey, Field, encode}
use surreal_dbservice.Keys.Nl
use surreal_dbservice.Keys.St
use surreal_dbservice.Keys.Ranges.{concat, StartLaws, IsWithin, nl_key, Listed-IsWithin}
use surreal_dbservice.Keys.ScopeTokens.{scope_token_behind_range}
use surreal_dbservice.Keys.Parsing.{TextLaws}
use surreal_dbservice.Keys.Listing.{parents_of, range_holds_kind}

abbrev pub to_list : String → List Char
to_list empty = []
to_list (c ∷ₛ s) = c ∷ to_list s

abbrev pub of_list : List Char → String
of_list [] = empty
of_list (c ∷ cs) = c ∷ₛ of_list cs

pub of_list-to_list : (s : String) → of_list (to_list s) ≡ s
of_list-to_list empty = refl
of_list-to_list (c ∷ₛ s) = ap (λ t. c ∷ₛ t) (of_list-to_list s)

abbrev pub letter : Char → ℕ
letter c = if ltb (code c) 0x80 then code c else 0xc3

abbrev pub letters : List Char → Key
letters [] = 0 ∷ []
letters (c ∷ cs) = letter c ∷ letters cs

abbrev pub IsAscii : List Char → Type 0
IsAscii [] = Unit
IsAscii (c ∷ cs) = (0 < code c) × (code c < 0x80) × IsAscii cs

abbrev pub demo : Storekey
demo = record {
  RecordId = ℕ;
  Uuid = ℕ;
  Dir = Bool;
  Array = List ℕ;
  encode_struct = concat;
  encode_str = λ s. letters (to_list s);
  encode_id = λ i. 0 ∷ i ∷ [];
  encode_uuid = λ u. u ∷ [];
  encode_dir = λ d. 0 ∷ [];
  encode_array = λ a. a ++ 1 ∷ [];
  encode_opt_id = λ o. 0 ∷ [];
}

letters_start : (cs : List Char) → (b : ℕ) × (r : Key) × (letters cs ≡ b ∷ r) × (b < 0xff)
letters_start [] = (0, [], refl, omega arith)
letters_start (c ∷ cs) = (letter c, letters cs, refl, ground arith)

pub start_laws : StartLaws demo
start_laws = record {
  struct_lem = λ ks. refl;
  str_starts = λ s. letters_start (to_list s);
  id_starts = λ i. (0, i ∷ [], refl, omega arith);
}

head-eq : (a b : ℕ) (j k : Key) → Path Key (a ∷ j) (b ∷ k) → a ≡ b
head-eq a b j k e = cc

tail-eq : (a b : ℕ) (j k : Key) → Path Key (a ∷ j) (b ∷ k) → j ≡ k
tail-eq a b j k e = cc

letter-eq : (c d : Char) → code c < 0x80 → code d < 0x80 → letter c ≡ letter d → code c ≡ code d
letter-eq c d hc hd e = ground arith

letter_positive : (c : Char) → 0 < code c → 0 ≡ letter c → ⊥
letter_positive c h e = ground arith

cons-eq : {c d : Char} {cs ds : List Char} → c ≡ d → cs ≡ ds → Path (List Char) (c ∷ cs) (d ∷ ds)
cons-eq e f = cc

pub letters-delimited :
    (cs ds : List Char) (r u : Key)
    → IsAscii cs
    → IsAscii ds
    → letters cs ++ r ≡ letters ds ++ u
    → (cs ≡ ds) × (r ≡ u)
letters-delimited [] [] r u hc hd e = (refl, tail-eq 0 0 r u e)
letters-delimited [] (d ∷ ds) r u hc hd e =
    absurd (letter_positive d hd.0 (head-eq 0 (letter d) r (letters ds ++ u) e))
letters-delimited (c ∷ cs) [] r u hc hd e =
    absurd (letter_positive c hc.0 (sym (head-eq (letter c) 0 (letters cs ++ r) u e)))
letters-delimited (c ∷ cs) (d ∷ ds) r u hc hd e =
    let (same, rest) =
      letters-delimited cs ds r u hc.2 hd.2
        (tail-eq (letter c) (letter d) (letters cs ++ r) (letters ds ++ u) e) in
    (
      cons-eq
          (Char-path c d (
            letter-eq c d hc.1 hd.1
              (head-eq (letter c) (letter d) (letters cs ++ r) (letters ds ++ u) e)))
          same,
      rest,
    )

abbrev pub text_laws : TextLaws demo
text_laws = record {
  IsText = λ s. IsAscii (to_list s);
  delimited = λ s t r u hs ht e.
      let (same, rest) = letters-delimited (to_list s) (to_list t) r u hs ht e in
      (sym (of_list-to_list s) ∙ ap of_list same ∙ of_list-to_list t, rest);
}

Listed-IsWithin_example :
    IsWithin (encode (Nl.new demo "ns" "me")) (Nl.prefix demo "ns") (Nl.suffix demo "ns")
Listed-IsWithin_example = Listed-IsWithin demo start_laws (nl_key "ns" "me")

scope_token_behind_range_example :
    key_ltb (encode (St.new demo "ns" "db" "users" "jwt")) (St.suffix demo "ns" "db" "users")
    ≡ false
scope_token_behind_range_example =
    scope_token_behind_range demo start_laws "ns" "db" "users" "jwt" "users"

range_holds_kind_example :
    (gs : List (Field demo)) × (Nl.new demo "ns" "me" ≡ parents_of demo (nl_key "ns" "me") ++ gs)
range_holds_kind_example =
    range_holds_kind demo start_laws text_laws (nl_key "ns" "me") (nl_key "ns" "me")
      ((omega arith, omega arith, (omega arith, omega arith, tt)), tt)
      (
        (omega arith, omega arith, (omega arith, omega arith, tt)),
        ((omega arith, omega arith, (omega arith, omega arith, tt)), tt),
      )
      Listed-IsWithin_example
