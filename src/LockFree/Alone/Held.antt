-- ===== src/LockFree/Alone/Held.antt =====
-- The slots of a key's two buckets in the lock-free filter, and the copies that its table holds.
use native.Mathlib.Decide.{dec_lt}
use lock_free_cuckoo_filter.Prelude.{
  ℕ, ◌+◌, ◌<◌, ◌≡◌, ◌≢◌, ◌⊎◌, inl, inr, sym, ap, ◌∙◌, [], some, arith,
}
use lock_free_cuckoo_filter.Common.{num_items_per_entry}
use lock_free_cuckoo_filter.Hash.{jenkins_hash}
use lock_free_cuckoo_filter.Index.Partner.{next_index-lt}
use lock_free_cuckoo_filter.Pointer.{get_real_pointer}
use lock_free_cuckoo_filter.Table.{Fingerprint, HashTable, slot, write, IsShaped}
use lock_free_cuckoo_filter.Table.Copies.{partner, pair_of, counts, copies, counts_self}
use lock_free_cuckoo_filter.Table.Weigh.{weigh, weigh-write, slot-weight-le, Heavy-slot}
use lock_free_cuckoo_filter.Sequential.Kicks.{IsFair}
use lock_free_cuckoo_filter.Sequential.Valid.{IsPower, IsPower-pos, counts-IsFair, counted_slot}
use lock_free_cuckoo_filter.LockFree.Memory.{Memory, word_at}
use lock_free_cuckoo_filter.LockFree.Alone.Find.{Stores}
use lock_free_cuckoo_filter.LockFree.Alone.Contents.{contents, IsSteady, slot-taken, slot-null}

module _ {n : ℕ} (pw : IsPower n) (t : HashTable) (s : IsShaped n t) (b : ℕ) (hb : b < n)
    (f : Fingerprint) (hf : f ≢ []) where
  pub present-copies :
      (c i : ℕ)
      → (c ≡ b) ⊎ (c ≡ partner n b f)
      → i < num_items_per_entry
      → slot t c i ≡ f
      → 0 < copies n t f (pair_of n b f)
  unfolding copies
  present-copies c i which hi e =
      let hp : partner n b f < n = next_index-lt n b (jenkins_hash f) (IsPower-pos pw) in
      let hc : c < n = elim which [ inl q ↦ omega (arith, q, hb) | inr q ↦ omega (arith, q, hp) ] in
      let one : counts n f (pair_of n b f) c f ≡ 1 = elim which [
        | inl q ↦ ap (λ (x : ℕ). counts n f (pair_of n b f) x f) q ∙ counts_self n f b
        | inr q ↦
            ap (λ (x : ℕ). counts n f (pair_of n b f) x f) q
            ∙ (counts-IsFair f (pair_of n b f) pw hf).moves b f hb
            ∙ counts_self n f b
      ] in
      omega (
        arith,
        slot-weight-le (counts n f (pair_of n b f)) c i s hc hi,
        ap (counts n f (pair_of n b f) c) e,
        one,
      )

  pub absent-copies :
      ((i : ℕ) → i < num_items_per_entry → (slot t b i ≢ f) × (slot t (partner n b f) i ≢ f))
      → copies n t f (pair_of n b f) ≡ 0
  unfolding copies slot
  absent-copies none_there = elim (dec_lt 0 (copies n t f (pair_of n b f))) [
    | no q ↦ omega (arith, q)
    | yes pos ↦
        let h = Heavy-slot (counts n f (pair_of n b f)) t pos in
        let hc : h.bucket < n = omega (arith, h.bucket-lt, s.buckets) in
        let hi : h.index < num_items_per_entry = omega (arith, h.index-lt, s.slots h.bucket hc) in
        let (same, place) = counted_slot f b h.bucket (slot t h.bucket h.index) pw hb hc h.weighs in
        elim place [
          | inl here ↦
              absurd
                ((none_there h.index hi).0 (ap (λ (x : ℕ). slot t x h.index) (sym here) ∙ same))
          | inr there ↦
              absurd
                ((none_there h.index hi).1 (ap (λ (x : ℕ). slot t x h.index) (sym there) ∙ same))
        ]
  ]

  -- An item that is cleared takes its weight away from the pair.
  pub weigh-cleared :
      (w : ℕ → Fingerprint → ℕ) (c i : ℕ)
      → IsFair n w
      → (c ≡ b) ⊎ (c ≡ partner n b f)
      → c < n
      → i < num_items_per_entry
      → slot t c i ≡ f
      → weigh w (write t c i []) + w b f ≡ weigh w t
  weigh-cleared w c i fair which hc hi e =
      let same : w c f ≡ w b f = elim which [
        | inl q ↦ ap (λ (x : ℕ). w x f) q
        | inr q ↦ ap (λ (x : ℕ). w x f) q ∙ fair.moves b f hb
      ] in
      omega (arith, weigh-write w c i [] s hc hi, fair.empty c, ap (w c) e, same)

-- A slot of a steady memory stores a fingerprint exactly where the contents hold it.
pub Stores-slot :
    {n c : ℕ} (m : Memory) (f : Fingerprint) (b i : ℕ)
    → IsSteady n c m
    → Stores m f b i
    → slot (contents m) b i ≡ f
Stores-slot m f b i s (ne, live) = some_eq (sym (slot-taken b i s ne).1 ∙ live)
  where
    some_eq : {x y : Fingerprint} → some x ≡ some y → x ≡ y
    some_eq e = cc

pub slot-Stores :
    {n c : ℕ} (m : Memory) (f : Fingerprint) (b i : ℕ)
    → IsSteady n c m
    → f ≢ []
    → slot (contents m) b i ≡ f
    → Stores m f b i
slot-Stores m f b i s hf e =
    let ne : get_real_pointer (word_at m b i) ≢ 0 = λ z. hf (sym e ∙ slot-null b i s z) in
    (ne, (slot-taken b i s ne).1 ∙ ap some e)
