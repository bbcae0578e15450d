-- ===== src/Structs/SequenceNumber.antt =====
-- Sequence numbers of locations, in src/nagus/structs.py.
pub mod RoundTrip
use nagus.Prelude.{
  if◌then◌else◌, ltb, leb, ◌==◌, ℕ, zero, suc, ◌+◌, ◌-◌, ◌*◌, ◌/◌, ◌%◌, Bool, false, not, ◌&&◌,
  ◌||◌,
}
use nagus.Prelude.Int.{ℤ, pos, negsuc}
use nagus.Stream.{Result, ok, err, value_error, assertion}

-- `n in range(lo, hi)`, of natural numbers.
abbrev pub in_range : ℕ → ℕ → ℕ → Bool
in_range lo hi n = leb lo n && ltb n hi

-- `can_split_sequence_number`
unfoldable pub can_split_sequence_number : ℤ → Bool
can_split_sequence_number (negsuc n) = false
can_split_sequence_number (pos n) =
    in_range 0x21 0xffff_ffff n && not (in_range 0xff00_0000 0xff01_0001 n)

-- `-n`
abbrev pub negated : ℕ → ℤ
negated zero = pos 0
negated (suc n) = negsuc n

-- `split_sequence_number`: the age and the page.
unfoldable pub split_sequence_number : ℤ → Result (ℤ × ℤ)
unfolding can_split_sequence_number
split_sequence_number (negsuc n) = err value_error
split_sequence_number (pos n) =
    if not (ltb n 0x1_0000_0000)
    then err value_error
    else if not (can_split_sequence_number (pos n))
    then err value_error
    else if in_range 0xff01_0001 0xffff_ffff n
    then ok (negated ((n - 0xff00_0001) / 65536), pos ((n - 0xff00_0001) % 65536))
    else if not (ltb n 0x8000_0000 || in_range 0x9c44_0021 0x9c45_0021 n)
    then err value_error
    else ok (pos ((n - 33) / 65536), pos ((n - 33) % 65536))

-- `age in range(-0xff, limit)`
abbrev pub age_in_range : ℕ → ℤ → Bool
age_in_range limit (pos a) = ltb a limit
age_in_range limit (negsuc a) = ltb a 0xff

-- `page in range(lo, hi)`
abbrev pub page_in_range : ℕ → ℕ → ℤ → Bool
page_in_range lo hi (pos p) = in_range lo hi p
page_in_range lo hi (negsuc p) = false

-- `age == 40004`, for each number that an age is compared with; -0xff is `negsuc 0xfe`.
abbrev pub age_is : ℤ → ℤ → Bool
age_is (pos a) (pos b) = a == b
age_is (negsuc a) (negsuc b) = a == b
age_is _ _ = false

-- The end of `make_sequence_number`, with its assertions.
unfoldable pub combine : ℤ → ℤ → Result ℤ
combine (negsuc a) (pos page) =
    let n = (a + 1) * 65536 + page + 0xff00_0001 in
    if in_range 0xff01_0001 0xffff_ffff n then ok (pos n) else err assertion
combine (pos a) (pos page) =
    let n = a * 65536 + page + 33 in
    if in_range 0x21 0xff00_0000 n then ok (pos n) else err assertion
combine _ (negsuc p) = err assertion

-- `make_sequence_number`
unfoldable pub make_sequence_number : ℤ → ℤ → Result ℤ
unfolding combine
make_sequence_number age page =
    if not (age_in_range 0xff00 age)
    then err value_error
    else if not (age_in_range 0x7fff age || age_is age (pos 40004))
    then err value_error
    else if not (page_in_range 0 0x1_0000 page)
    then err value_error
    else if (age_is age (pos 0xfeff) && page_in_range 0xffdf 0x1_0000 page)
        || (age_is age (negsuc 0xfe) && page_in_range 0xfffe 0x1_0000 page)
    then err value_error
    else combine age page
