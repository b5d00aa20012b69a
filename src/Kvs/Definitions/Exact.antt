-- ===== src/Kvs/Definitions/Exact.antt =====
-- lib/src/kvs/tx.rs: what the first read of a list of definitions gives.
use surreal_dbservice.Base.{
  String, ◌≡◌, refl, ap, ◌∙◌, false, Option, none, some, List, [], ◌∷◌, arith,
}
use surreal_dbservice.Base.Lists.{take, All}
use surreal_dbservice.Err.{ok}
use surreal_dbservice.Kvs.Engine.{Engine, Key, Val}
use surreal_dbservice.Kvs.Cache
use surreal_dbservice.Kvs.Cache.{Catalog, Entry, sts_entry}
use surreal_dbservice.Kvs.Order.{Pairs, key_ltb, range}
use surreal_dbservice.Kvs.Laws.{ScanLaws}
use surreal_dbservice.Kvs.Tx.{Transaction}
use surreal_dbservice.Kvs.Batch.Exact.{IsOpen, contents, getr_exact}
use surreal_dbservice.Keys.{Storekey, encode}
use surreal_dbservice.Keys.St
use surreal_dbservice.Keys.Ranges.{StartLaws}
use surreal_dbservice.Keys.ScopeTokens.{scope_token_behind_range}
use surreal_dbservice.Kvs.Definitions.{Codec, u32_max, decoded, listed, all_of}
use surreal_dbservice.Kvs.Definitions.All.{all_st, as_sts}

module _ {E : Engine} {C : Catalog} (L : ScanLaws E) {A : Type 0} where
  -- On an open transaction whose cache has no such list yet, the first read of a list gives every
  -- definition that the transaction holds in the range, in key order, up to 2^32 - 1 of them; it
  -- keeps the list in the cache and changes nothing else.
  pub all_of_exact :
      (beg end : Key) (pick : Entry C → Option (List A)) (entry : List A → Entry C)
      (decode : Val → A) (t : Transaction E C)
      → IsOpen L t
      → Cache.get beg t.cache ≡ none
      → let val = decoded decode (take u32_max (range beg end (contents L t))) in
        all_of beg end pick entry decode t
        ≡ some (ok val, record t { cache = Cache.set beg (entry val) t.cache })
  unfolding all_of listed
  all_of_exact beg end pick entry decode t h miss = rw (miss, getr_exact L beg end u32_max t h) refl

-- a key at or behind the end of a range is not in it
range_of_behind :
    (a b : Key) (xs : Pairs) → All (λ (p : Key × Val). key_ltb p.0 b ≡ false) xs → range a b xs ≡ []
unfolding range
range_of_behind a b [] h = refl
range_of_behind a b ((k, v) ∷ xs) h = ground (arith, range_of_behind a b xs h.1)

module _ (K : Storekey) where
  -- The pair is stored under the key of a token of some scope of the database.
  abbrev pub IsToken : String → String → Key × Val → Type 0
  IsToken ns db p = (sc : String) × (tk : String) × (p.0 ≡ encode (St.new K ns db sc tk))

  tokens_behind :
      (S : StartLaws K) (ns db sc : String) (xs : Pairs)
      → All (IsToken ns db) xs
      → All (λ (p : Key × Val). key_ltb p.0 (St.suffix K ns db sc) ≡ false) xs
  tokens_behind S ns db sc [] h = tt
  tokens_behind S ns db sc ((k, v) ∷ xs) ((s, tk, e), h) = (
    ap (λ j. key_ltb j (St.suffix K ns db sc)) e ∙ scope_token_behind_range K S ns db s tk sc,
    tokens_behind S ns db sc xs h,
  )

  -- On an open transaction that holds tokens of scopes of a database, and nothing else, the list of
  -- the tokens of a scope is empty, for every scope of the database.
  pub all_st_finds_none :
      {E : Engine} {C : Catalog} (L : ScanLaws E) (S : StartLaws K) (D : Codec C)
      (ns db sc : String) (t : Transaction E C)
      → IsOpen L t
      → Cache.get (St.prefix K ns db sc) t.cache ≡ none
      → All (IsToken ns db) (contents L t)
      → (t' : Transaction E C) × (all_st K D ns db sc t ≡ some (ok [], t'))
  unfolding all_st
  all_st_finds_none L S D ns db sc t h miss tokens =
      let nothing =
        range_of_behind (St.prefix K ns db sc) (St.suffix K ns db sc) (contents L t)
          (tokens_behind S ns db sc (contents L t) tokens) in
      (
        record t { cache = Cache.set (St.prefix K ns db sc) (sts_entry []) t.cache },
        all_of_exact L (St.prefix K ns db sc) (St.suffix K ns db sc) as_sts sts_entry D.decode_token
              t h miss
            ∙ ap
                (λ xs. some (
                  ok (decoded D.decode_token (take u32_max xs)),
                  record t {
                    cache =
                        Cache.set (St.prefix K ns db sc)
                          (sts_entry (decoded D.decode_token (take u32_max xs))) t.cache;
                  },
                ))
                nothing,
      )
