-- ===== src/TorrentMeta/Layout/Ends.antt =====
-- Where the layout says that a file ends, in numbers of bytes.
use ptool.Base.{
  ℕ, zero, suc, ◌+◌, ◌-◌, ◌*◌, ◌/◌, ◌%◌, ◌≤◌, ◌<◌, if◌then◌else◌, ltb, ◌≡◌, ◌≢◌, refl, arith, inl,
  inr, Bool-cases,
}
use native.Mathlib.Nat.{mod-lt, mod-add-div', mul-mod_left, le-mul_of_pos_right}
use ptool.Base.Int.{pos}
use ptool.TorrentMeta.Layout.{Place, place}
use ptool.TorrentMeta.Layout.Position.{place_within, place_beyond, place_exact}

-- The file of n bytes after the first b bytes, which start at that offset of that piece: it ends in
-- the end piece, whose part of it has `last` bytes, and the next file starts where it ends, if that
-- is not where a piece ends.
pub record IsPlace (p b n i : ℕ) (r : Place) : Type 0 where
  pub end : ℕ
  pub last : ℕ
  pub next : ℕ
  pub end_eq : r.end_index ≡ pos end
  pub last_eq : r.last_bytes ≡ pos last
  pub next_eq : r.next_offset ≡ pos next
  pub after : i ≤ end
  pub ends : b + n ≤ end * p + p
  pub rest : (if ltb (end * p) b then b else end * p) + last ≡ b + n
  pub starts : (b + n) % p ≢ 0 → end * p + next ≡ b + n
  pub within : next ≤ p

next_product : (i q p : ℕ) → (i + q + 1) * p ≡ i * p + q * p + p
next_product i q p = ground arith

sum_product : (i q p : ℕ) → (i + suc q) * p ≡ i * p + q * p + p
sum_product i q p = ground arith

multiple-mod : (a m p : ℕ) → a ≡ m * p → a % p ≡ 0
multiple-mod a m p h = rw h (mul-mod_left m p)

-- The file goes on beyond its first piece, by q pieces and l bytes.
place_beyond-IsPlace :
    (p b n i o q l : ℕ)
    → 0 < p
    → p < 9223372036854775808
    → o ≤ p
    → p < o + n
    → i * p + o ≡ b
    → b + n + 1 < 9223372036854775808
    → (n - (p - o)) / p ≡ q
    → (n - (p - o)) % p ≡ l
    → l < p
    → l + q * p ≡ n - (p - o)
    → IsPlace p b n i (place (pos p) (pos i) (pos o) (pos n))
place_beyond-IsPlace p b n i o q (suc l) hp kp ho h hb hn eq el ll total =
    rw
      (place_beyond p i o n q (suc l) ho h (omega arith) kp
        (omega (arith, le-mul_of_pos_right i hp, le-mul_of_pos_right q hp)) (omega arith) eq el)
      (record {
        end = i + q + 1;
        last = suc l;
        next = suc l;
        end_eq = refl;
        last_eq = refl;
        next_eq = refl;
        after = omega arith;
        ends = omega (arith, next_product i q p);
        rest = ground (arith, next_product i q p);
        starts = λ _. omega (arith, next_product i q p);
        within = omega arith;
      })
place_beyond-IsPlace p b n i o zero zero hp kp ho h hb hn eq el ll total = ground arith
place_beyond-IsPlace p b n i o (suc q) zero hp kp ho h hb hn eq el ll total =
    rw
      (place_exact p i o n q ho h (omega arith) kp
        (omega (arith, le-mul_of_pos_right i hp, le-mul_of_pos_right q hp)) eq el)
      (record {
        end = i + suc q;
        last = p;
        next = 0;
        end_eq = refl;
        last_eq = refl;
        next_eq = refl;
        after = omega arith;
        ends = omega (arith, sum_product i q p);
        rest = ground (arith, sum_product i q p);
        starts = λ k.
            elim (k
              (multiple-mod (b + n) (i + suc q + 1) p (omega (arith, sum_product i q p)))) [ ];
        within = omega arith;
      })

pub place-IsPlace :
    (p b n i o : ℕ)
    → 0 < p
    → p < 9223372036854775808
    → o ≤ p
    → i * p + o ≡ b
    → b + n + 1 < 9223372036854775808
    → IsPlace p b n i (place (pos p) (pos i) (pos o) (pos n))
place-IsPlace p b n i o hp kp ho hb hn = elim (Bool-cases (ltb p (o + n))) [
  | inr e ↦
      rw (place_within p i o n (ground arith) kp (omega (arith, le-mul_of_pos_right i hp)))
        (record {
          end = i;
          last = n;
          next = o + n;
          end_eq = refl;
          last_eq = refl;
          next_eq = refl;
          after = omega arith;
          ends = ground arith;
          rest = ground arith;
          starts = λ h. omega arith;
          within = ground arith;
        })
  | inl e ↦
      let r = n - (p - o) in
      place_beyond-IsPlace p b n i o (r / p) (r % p) hp kp ho (ground arith) hb hn refl refl
        (mod-lt r hp) (mod-add-div' r p)
]
