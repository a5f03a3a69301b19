-- ===== src/Cache/Agree.antt =====
-- What cache_get depends on.
use cycology.Base.{ℕ, zero, suc, ◌≡◌, refl, ap, ◌∙◌, Option, none, some, ◌>>=◌}
use cycology.Cache.Structs.{Heap}
use cycology.Cache.Keys.{key_number, key_cmp, cache_hash}
use cycology.Cache.Table.{ended, walk, found, cache_get}

-- the numbers of the entries' keys, the table, and the keys and bins of all entries
pub record Agrees (h h' : Heap) : Type 0 where
  pub numbers : (x : ℕ) → key_number h' (h.entries x).key ≡ key_number h (h.entries x).key
  pub keys : (x : ℕ) → (h'.entries x).key ≡ (h.entries x).key
  pub nexts : (x : ℕ) → (h'.entries x).next ≡ (h.entries x).next
  pub max_size : h'.cache.max_size ≡ h.cache.max_size
  pub size : h'.cache.size ≡ h.cache.size
  pub table : (i : ℕ) → h'.cache.table i ≡ h.cache.table i

>>=-equal {ℓ κ} :
    {A : Type ℓ} {B : Type κ} (m : Option A) (f g : A → Option B)
    → ((a : A) → f a ≡ g a)
    → (m >>= f) ≡ (m >>= g)
>>=-equal none f g same = refl
>>=-equal (some a) f g same = same a

module _ (h h' : Heap) (v : Agrees h h') (key : ℕ)
    (number : key_number h' key ≡ key_number h key) where
  key_cmp-Agrees : (x : ℕ) → key_cmp h' key (h.entries x).key ≡ key_cmp h key (h.entries x).key
  unfolding key_cmp
  key_cmp-Agrees x = rw (number, v.numbers x) refl

  ended-Agrees : (p : ℕ) → ended h' p ≡ ended h p
  unfolding ended
  ended-Agrees p = rw (v.keys p) refl

  walk-Agrees : (f last p : ℕ) → walk f h' key last p ≡ walk f h key last p
  unfolding walk
  walk-Agrees zero last p = refl
  walk-Agrees (suc f) last p =
      rw (ended-Agrees p, v.keys p, v.nexts p, key_cmp-Agrees p, walk-Agrees f p (h.entries p).next)
        refl

  found-Agrees : (p : ℕ) → found h' key p ≡ found h key p
  unfolding found
  found-Agrees p = rw (ended-Agrees p, v.keys p, key_cmp-Agrees p) refl

  pub cache_hash-Agrees : cache_hash h' key ≡ cache_hash h key
  unfolding cache_hash
  cache_hash-Agrees = rw (number, v.max_size) refl

  pub cache_get-Agrees : cache_get h' key ≡ cache_get h key
  unfolding cache_get
  cache_get-Agrees = rw cache_hash-Agrees (
      >>=-equal (cache_hash h key) _ _ λ bin.
        rw
          (walk-Agrees (suc h'.cache.size) 0 (h'.cache.table bin)
            ∙ ap (λ s. walk (suc s) h key 0 (h'.cache.table bin)) v.size
            ∙ ap (walk (suc h.cache.size) h key 0) (v.table bin))
          (>>=-equal (walk (suc h.cache.size) h key 0 (h.cache.table bin)) _ _
            λ r. rw (found-Agrees r.1) refl))
