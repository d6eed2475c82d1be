-- ===== src/TorrentMeta/Layout/Position.antt =====
-- Where the layout puts a file, in numbers of bytes from the start of the torrent.
use ptool.Base.{ℕ, suc, ◌+◌, ◌-◌, ◌/◌, ◌%◌, ◌≤◌, ◌<◌, true, false, ltb, ◌==◌, ◌≡◌, refl, arith}
use ptool.Base.Int.{pos}
use ptool.Base.Int64.{add64, sub64, lt64, eq64, min64}
use ptool.Base.Int64.Exact.{
  add64_pos, sub64_pos, quot64_pos, rem64_pos, lt64_pos, eq64_pos, min64_pos,
}
use ptool.TorrentMeta.Layout.{place}

ltb_of_lt : (a b : ℕ) → a < b → ltb a b ≡ true
ltb_of_lt a b h = ground arith

eq_of_lt : (a b : ℕ) → a < b → (a == b) ≡ false
eq_of_lt a b h = ground arith

-- The parts of `place` on numbers.
first_left_within :
    (p o n : ℕ)
    → o + n ≤ p
    → p < 9223372036854775808
    → min64 (sub64 (pos p) (pos o)) (pos n) ≡ pos n
first_left_within p o n h hp =
    rw (sub64_pos p o (omega arith) hp, min64_pos (p - o) n) (ground arith)

first_left_beyond :
    (p o n : ℕ)
    → o ≤ p
    → p < o + n
    → p < 9223372036854775808
    → min64 (sub64 (pos p) (pos o)) (pos n) ≡ pos (p - o)
first_left_beyond p o n h k hp = rw (sub64_pos p o h hp, min64_pos (p - o) n) (ground arith)

sub64_self : (n : ℕ) → n < 9223372036854775808 → sub64 (pos n) (pos n) ≡ pos 0
sub64_self n h = rw (sub64_pos n n (omega arith) h) (ground arith)

add64_zero : (n : ℕ) → n < 9223372036854775808 → add64 (pos n) (pos 0) ≡ pos n
add64_zero n h = rw (add64_pos n 0 (omega arith)) (ground arith)

lt64_zero : (n : ℕ) → lt64 (pos 0) (pos n) ≡ ltb 0 n
lt64_zero n = lt64_pos 0 n

eq64_refl : (n : ℕ) → eq64 (pos n) (pos n) ≡ true
eq64_refl n = rw (eq64_pos n n) (ground arith)

-- The file ends in the piece that it starts in.
pub place_within :
    (p i o n : ℕ)
    → o + n ≤ p
    → p < 9223372036854775808
    → i < 9223372036854775808
    → place (pos p) (pos i) (pos o) (pos n)
      ≡ record { end_index = pos i; last_bytes = pos n; next_offset = pos (o + n) }
unfolding place
place_within p i o n h hp hi =
    rw
      (
        first_left_within p o n h hp,
        sub64_self n (omega arith),
        lt64_zero 0,
        add64_zero i hi,
        lt64_zero 0,
        add64_pos o n (omega arith),
        eq64_refl i,
      )
      refl

-- The file goes on beyond that piece, by r bytes; it ends inside the piece q + 1.
pub place_beyond :
    (p i o n q l : ℕ)
    → o ≤ p
    → p < o + n
    → n < 9223372036854775808
    → p < 9223372036854775808
    → i + q + 1 < 9223372036854775808
    → 0 < l
    → (n - (p - o)) / p ≡ q
    → (n - (p - o)) % p ≡ l
    → place (pos p) (pos i) (pos o) (pos n)
      ≡ record { end_index = pos (i + q + 1); last_bytes = pos l; next_offset = pos l }
unfolding place
place_beyond p i o n q l h k hn hp hi hl eq el =
    let r = n - (p - o) in
    rw
      (
        first_left_beyond p o n h k hp,
        sub64_pos n (p - o) (omega arith) hn,
        lt64_zero r,
        quot64_pos r p (omega arith),
        rem64_pos r p,
        eq,
        el,
        ltb_of_lt 0 r (omega arith),
        lt64_zero l,
        ltb_of_lt 0 l hl,
        add64_pos i q (omega arith),
        add64_pos (i + q) 1 hi,
        eq64_pos i (i + q + 1),
        eq_of_lt i (i + q + 1) (omega arith),
      )
      refl

-- It ends at the end of a later piece.
pub place_exact :
    (p i o n q : ℕ)
    → o ≤ p
    → p < o + n
    → n < 9223372036854775808
    → p < 9223372036854775808
    → i + q + 1 < 9223372036854775808
    → (n - (p - o)) / p ≡ suc q
    → (n - (p - o)) % p ≡ 0
    → place (pos p) (pos i) (pos o) (pos n)
      ≡ record { end_index = pos (i + suc q); last_bytes = pos p; next_offset = pos 0 }
unfolding place
place_exact p i o n q h k hn hp hi eq el =
    let r = n - (p - o) in
    rw
      (
        first_left_beyond p o n h k hp,
        sub64_pos n (p - o) (omega arith) hn,
        lt64_zero r,
        quot64_pos r p (omega arith),
        rem64_pos r p,
        eq,
        el,
        ltb_of_lt 0 r (omega arith),
        lt64_zero 0,
        add64_pos i (suc q) (omega arith),
        eq64_pos i (i + suc q),
        eq_of_lt i (i + suc q) (omega arith),
      )
      refl
