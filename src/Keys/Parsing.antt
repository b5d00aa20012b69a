-- ===== src/Keys/Parsing.antt =====
-- A key of lib/src/key can be read back field by field: texts end with their zero byte.
use surreal_dbservice.Base.{
  ℕ, String, ◌≡◌, Path, refl, ap, ◌∙◌, Bool, true, false, List, [], ◌∷◌, ◌++◌, arith, ◌==◌,
  if◌then◌else◌,
}
use mathlib.Core.List.{append_assoc}
use surreal_dbservice.Kvs.Engine.{Key}
use surreal_dbservice.Keys.{Storekey, Field, byte, str}
use surreal_dbservice.Keys.Ranges.{joined, StartLaws}

-- What storekey documents of a text without a zero byte: its encoding ends where its zero byte is.
pub record TextLaws (K : Storekey) : Type 1 where
  pub IsText : String → Type 0
  pub delimited :
      (s t : String) (r u : Key)
      → IsText s
      → IsText t
      → K.encode_str s ++ r ≡ K.encode_str t ++ u
      → (s ≡ t) × (r ≡ u)

-- Two lists of fields that can be told apart from left to right: where one has a byte or a text, the
-- other has one too, up to the first byte in which they differ.
abbrev pub aligned : {K : Storekey} → List (Field K) → List (Field K) → Bool
aligned ps [] = true
aligned [] (byte b ∷ qs) = true
aligned [] (str s ∷ qs) = true
aligned (byte a ∷ ps) (byte b ∷ qs) = let rest = aligned ps qs in if a == b then rest else true
aligned (str s ∷ ps) (str t ∷ qs) = aligned ps qs
aligned _ _ = false

module _ {K : Storekey} (L : StartLaws K) (T : TextLaws K) where
  abbrev pub AllText : List (Field K) → Type 0
  AllText [] = Unit
  AllText (str s ∷ fs) = T.IsText s × AllText fs
  AllText (_ ∷ fs) = AllText fs

  head-eq : (a b : ℕ) (j k : Key) → Path Key (a ∷ j) (b ∷ k) → a ≡ b
  head-eq a b j k e = cc

  tail-eq : (a b : ℕ) (j k : Key) → Path Key (a ∷ j) (b ∷ k) → j ≡ k
  tail-eq a b j k e = cc

  not_empty : (s : String) (j : Key) → Path Key [] (K.encode_str s ++ j) → ⊥
  not_empty s j e =
      let (b, k, starts, _) = L.str_starts s in nothing b (k ++ j) (e ∙ ap (λ i. i ++ j) starts)
    where
      nothing : (b : ℕ) (i : Key) → Path Key [] (b ∷ i) → ⊥
      nothing b i h = cc

  aligned-byte :
      (a b : ℕ) (rest : Bool) → a ≡ b → (if a == b then rest else true) ≡ true → rest ≡ true
  aligned-byte a b rest same h = ground arith

  cons-eq :
      {a b : ℕ} {ps qs : List (Field K)}
      → a ≡ b
      → ps ≡ qs
      → Path (List (Field K)) (byte a ∷ ps) (byte b ∷ qs)
  cons-eq same found = cc

  str-eq :
      {s t : String} {ps qs : List (Field K)}
      → s ≡ t
      → ps ≡ qs
      → Path (List (Field K)) (str s ∷ ps) (str t ∷ qs)
  str-eq same found = cc

  -- A key that begins like the encoding of some fields has these fields in front.
  pub joined_front :
      (ps qs : List (Field K)) (r : Key)
      → aligned ps qs ≡ true
      → AllText ps
      → AllText qs
      → joined ps ≡ joined qs ++ r
      → (gs : List (Field K)) × (ps ≡ qs ++ gs)
  unfolding joined
  joined_front ps [] r h tp tq e = (ps, refl)
  joined_front [] (byte b ∷ qs) r h tp tq e = cc
  joined_front [] (str s ∷ qs) r h tp tq e =
      absurd (not_empty s (joined qs ++ r) (e ∙ append_assoc (K.encode_str s) (joined qs) r))
  joined_front (byte a ∷ ps) (byte b ∷ qs) r h tp tq e =
      let same = head-eq a b (joined ps) (joined qs ++ r) e in
      let (gs, found) =
        joined_front ps qs r (aligned-byte a b _ same h) tp tq
          (tail-eq a b (joined ps) (joined qs ++ r) e) in
      (gs, cons-eq same found)
  joined_front (str s ∷ ps) (str t ∷ qs) r h tp tq e =
      let (same, rest) =
        T.delimited s t (joined ps) (joined qs ++ r) tp.0 tq.0
          (e ∙ append_assoc (K.encode_str t) (joined qs) r) in
      let (gs, found) = joined_front ps qs r h tp.1 tq.1 rest in (gs, str-eq same found)
  joined_front ps qs r h tp tq e = cc
