-- ===== src/Structs/SequenceNumber/RoundTrip.antt =====
-- Splitting sequence numbers against making them, in src/nagus/structs.py.
use nagus.Prelude.{ℕ, ◌≤◌, ◌<◌, ◌-◌, ◌%◌, ◌≡◌, ap, ◌∙◌, ◌⊎◌, inl, inr, arith}
use nagus.Prelude.Int.{ℤ, pos, negsuc}
use nagus.Stream.{ok, err, value_error, Error}
use nagus.Stream.Reads.{Result-cases}
use nagus.Structs.SequenceNumber.{
  split_sequence_number, make_sequence_number, can_split_sequence_number, combine,
}

-- If `make_sequence_number` returns a number for an age and a page, `split_sequence_number` of
-- it returns the age and the page.
pub split-make :
    (age page n : ℤ)
    → make_sequence_number age page ≡ ok n
    → split_sequence_number n ≡ ok (age, page)
unfolding make_sequence_number split_sequence_number can_split_sequence_number combine
split-make (pos a) (pos p) n e = ground arith
split-make (negsuc a) (pos p) n e = ground arith
split-make (pos a) (negsuc p) n e = ground arith
split-make (negsuc a) (negsuc p) n e = ground arith

make-Raises : (age page : ℤ) (x : Error) → make_sequence_number age page ≡ err x → x ≡ value_error
unfolding make_sequence_number combine
make-Raises (pos a) (pos p) x e = ground arith
make-Raises (negsuc a) (pos p) x e = ground arith
make-Raises (pos a) (negsuc p) x e = ground arith
make-Raises (negsuc a) (negsuc p) x e = ground arith

-- `make_sequence_number` of any age and page returns a number or raises ValueError: its
-- assertions never fail.
pub make-total :
    (age page : ℤ)
    → ((n : ℤ) × (make_sequence_number age page ≡ ok n))
      ⊎ (make_sequence_number age page ≡ err value_error)
make-total age page = elim (Result-cases (make_sequence_number age page)) [
  | inl found ↦ inl found
  | inr (x, e) ↦ inr (e ∙ ap err (make-Raises age page x e))
]

-- If `split_sequence_number` returns an age and a page for a number outside 0x7fff0021 to
-- 0x7fffffff, `make_sequence_number` of them returns the number.
pub make-split :
    (n : ℕ) (age page : ℤ)
    → split_sequence_number (pos n) ≡ ok (age, page)
    → (n < 0x7fff_0021) ⊎ (0x8000_0000 ≤ n)
    → make_sequence_number age page ≡ ok (pos n)
unfolding make_sequence_number split_sequence_number can_split_sequence_number combine
make-split n age page e k = ground arith

-- Every number from 0x7fff0021 to 0x7fffffff is split, into the age 0x7fff and a page of which
-- `make_sequence_number` raises ValueError.
pub make-split-7fff :
    (n : ℕ)
    → 0x7fff_0021 ≤ n
    → n < 0x8000_0000
    → (page : ℤ) × (split_sequence_number (pos n) ≡ ok (pos 0x7fff, page))
      × (make_sequence_number (pos 0x7fff) page ≡ err value_error)
unfolding make_sequence_number split_sequence_number can_split_sequence_number combine
make-split-7fff n lo hi = (pos ((n - 33) % 65536), ground arith, ground arith)
