-- ===== src/FineGrained/Program.antt =====
-- Programs that take locks and access the slots of a table.
use lock_free_cuckoo_filter.Prelude.{ℕ, Bool}
use lock_free_cuckoo_filter.Table.{Fingerprint}

-- What a thread does next. An access with `swap` is one of the two of a `std::swap`.
pub data Program (A : Type 0) : Type 0 where
  done : A → Program A
  locking : (exclusive : Bool) → (m : ℕ) → Program A → Program A  -- a lock of `mutexes[m]`
  unlocking : (m : ℕ) → Program A → Program A
  reading : (swap : Bool) → (b i : ℕ) → (Fingerprint → Program A) → Program A
  writing : (swap : Bool) → (b i : ℕ) → Fingerprint → Program A → Program A

infixl 5 ◌>>=◌
abbrev pub ◌>>=◌ : {A B : Type 0} → Program A → (A → Program B) → Program B
done a >>= f = f a
locking exclusive m k >>= f = locking exclusive m (k >>= f)
unlocking m k >>= f = unlocking m (k >>= f)
reading swap b i k >>= f = reading swap b i (λ s. k s >>= f)
writing swap b i s k >>= f = writing swap b i s (k >>= f)

-- The life of a `std::unique_lock`, or of a `std::shared_lock`, around `body`: it is released at its
-- `unlock` or by its destructor at a `return`.
abbrev pub with_lock : {A : Type 0} → Bool → ℕ → Program A → Program A
with_lock exclusive m body = locking exclusive m (body >>= λ a. unlocking m (done a))
