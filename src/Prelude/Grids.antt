-- ===== src/Prelude/Grids.antt =====
-- Vectors of arrays of one length, as lists of lists.
use Prim.Native.Nat.{ℕ, ◌<◌}
use mathlib.Core.Path.{◌≡◌, refl, ap, ◌∙◌}
use mathlib.Core.Logic.{◌≢◌}
use mathlib.Core.List.{List, []}
use native.Mathlib.Decide.{ℕ_discrete}
use native.Mathlib.Omega.{arith}
use lock_free_cuckoo_filter.Prelude.Lists.{
  length, get_or, set, replicate, length-set, length-replicate, get_or-set, get_or-set_self,
  get_or-set_ne, get_or-replicate_lt,
}

module _ {A : Type 0} where
  abbrev pub get_item : List (List A) → ℕ → ℕ → A → A
  get_item xss b i d = get_or (get_or xss b []) i d

  abbrev pub set_item : List (List A) → ℕ → ℕ → A → List (List A)
  set_item xss b i v = set xss b (set (get_or xss b []) i v)

-- `xss` has `n` rows of `k` items each.
pub record IsGrid (n k : ℕ) {A : Type 0} (xss : List (List A)) : Type 0 where
  pub rows : length xss ≡ n
  pub items : (b : ℕ) → b < n → length (get_or xss b []) ≡ k

module _ {n k : ℕ} {A : Type 0} where
  pub replicate-IsGrid : (v : A) → IsGrid n k (replicate n (replicate k v))
  replicate-IsGrid v = record {
    rows = length-replicate n _;
    items = λ b lt. ap length (get_or-replicate_lt n b _ [] lt) ∙ length-replicate k v;
  }

  pub set_item-IsGrid :
      (xss : List (List A)) (b i : ℕ) (v : A) → IsGrid n k xss → IsGrid n k (set_item xss b i v)
  set_item-IsGrid xss b i v s = record {
    rows = length-set xss b _ ∙ s.rows;
    items = λ c lt. elim (ℕ_discrete b c) [
      | yes e ↦
          get_or-set (λ (row : List A). length row ≡ k) xss b c (set (get_or xss b []) i v) []
            (length-set (get_or xss b []) i v ∙ s.items b (omega (arith, lt, e))) (s.items c lt)
      | no ne ↦ ap length (get_or-set_ne xss b c _ [] ne) ∙ s.items c lt
    ];
  }

  pub get_item-set_item_self :
      (xss : List (List A)) (b i : ℕ) (v d : A)
      → IsGrid n k xss
      → b < n
      → i < k
      → get_item (set_item xss b i v) b i d ≡ v
  get_item-set_item_self xss b i v d s hb hi =
      ap (λ (x : List A). get_or x i d) (get_or-set_self xss b _ [] (omega (arith, s.rows)))
      ∙ get_or-set_self (get_or xss b []) i v d (omega (arith, s.items b hb))

module _ {A : Type 0} where
  pub get_item-set_item_ne :
      (xss : List (List A)) (b c i j : ℕ) (v d : A)
      → b ≢ c
      → get_item (set_item xss b i v) c j d ≡ get_item xss c j d
  get_item-set_item_ne xss b c i j v d ne =
      ap (λ (x : List A). get_or x j d) (get_or-set_ne xss b c _ [] ne)

  pub get_item-set_item_column :
      (xss : List (List A)) (b c i j : ℕ) (v d : A)
      → i ≢ j
      → get_item (set_item xss b i v) c j d ≡ get_item xss c j d
  get_item-set_item_column xss b c i j v d ne = elim (ℕ_discrete b c) [
    | yes e ↦
        get_or-set (λ row. get_or row j d ≡ get_or (get_or xss c []) j d) xss b c
          (set (get_or xss b []) i v) []
          (get_or-set_ne (get_or xss b []) i j v d ne
            ∙ ap (λ (x : ℕ). get_or (get_or xss x []) j d) e)
          refl
    | no other ↦ get_item-set_item_ne xss b c i j v d other
  ]

  -- What holds of the value and of the old items holds of the items after a write.
  pub get_item-set_item :
      (P : A → Type 0) (xss : List (List A)) (b i c j : ℕ) (v d : A)
      → P v
      → ((b i : ℕ) → P (get_item xss b i d))
      → P (get_item (set_item xss b i v) c j d)
  get_item-set_item P xss b i c j v d pv p =
      get_or-set (λ row. P (get_or row j d)) xss b c (set (get_or xss b []) i v) []
        (get_or-set P (get_or xss b []) i j v d pv (p b j)) (p c j)
