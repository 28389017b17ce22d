-- ===== src/LockFree/Program.antt =====
-- Programs of atomic accesses to the shared memory of the lock-free filter.
use lock_free_cuckoo_filter.Prelude.{ℕ, Bool, Option, none, some}
use lock_free_cuckoo_filter.Pointer.{TablePointer}
use lock_free_cuckoo_filter.Table.{Fingerprint}

-- An address of a `HashEntry`; 0 is the null pointer.
abbrev pub Address : Type 0
Address = ℕ

-- What a thread does next, and how it goes on with the answer.
pub data Program (A : Type 0) : Type 0 where
  done : A → Program A
  aborted : Program A  -- a call of `abort()`
  out_of_fuel : Program A  -- a loop that has used up its rounds
  reading : (b i : ℕ) → (TablePointer → Program A) → Program A  -- `hash_table[b][i]`
  comparing : (b i : ℕ) → (expected desired : TablePointer) → (Bool → Program A) → Program A
      -- `__sync_bool_compare_and_swap(&hash_table[b][i], expected, desired)`
  marking : (p : Address) → (index tid : ℕ) → Program A → Program A  -- `hazard_ptrs[tid][index] = p`
  dereferencing : (p : Address) → (Fingerprint → Program A) → Program A  -- `p->str`
  allocating : Fingerprint → (Address → Program A) → Program A  -- `new HashEntry()`, with its `str`
  retiring : (p : Address) → (tid : ℕ) → Program A → Program A  -- `retired_ptrs[tid].push_back(p)`

infixl 5 ◌>>=◌ ◌>>◌
abbrev pub ◌>>=◌ : {A B : Type 0} → Program A → (A → Program B) → Program B
done a >>= f = f a
aborted >>= f = aborted
out_of_fuel >>= f = out_of_fuel
reading b i k >>= f = reading b i (λ w. k w >>= f)
comparing b i expected desired k >>= f = comparing b i expected desired (λ r. k r >>= f)
marking p index tid k >>= f = marking p index tid (k >>= f)
dereferencing p k >>= f = dereferencing p (λ s. k s >>= f)
allocating s k >>= f = allocating s (λ p. k p >>= f)
retiring p tid k >>= f = retiring p tid (k >>= f)

abbrev pub ◌>>◌ : {B : Type 0} → Program (Unit {0}) → Program B → Program B
m >> k = m >>= λ _. k

abbrev pub read_slot : ℕ → ℕ → Program TablePointer
read_slot b i = reading b i done

abbrev pub compare_and_swap : ℕ → ℕ → TablePointer → TablePointer → Program Bool
compare_and_swap b i expected desired = comparing b i expected desired done

abbrev pub entry_str : Address → Program Fingerprint
entry_str p = dereferencing p done

abbrev pub new_entry : Fingerprint → Program Address
new_entry s = allocating s done

-- The result of a function that may have called `abort()`
abbrev pub or_abort : Option TablePointer → Program TablePointer
or_abort none = aborted
or_abort (some w) = done w

unfoldable pub mark_hazard : Address → ℕ → ℕ → Program (Unit {0})
mark_hazard real_pointer index tid = marking real_pointer index tid (done tt)

unfoldable pub clear_hazard : ℕ → Program (Unit {0})
unfolding mark_hazard
clear_hazard tid = mark_hazard 0 0 tid >> mark_hazard 0 1 tid

unfoldable pub retire_key : Address → ℕ → Program (Unit {0})
retire_key real_pointer tid = retiring real_pointer tid (done tt)
