-- ===== src/Net/ReplayFilter/Ideal.antt =====
-- ts/net/noise-session.ts, `ReplayFilter`, against a filter that remembers every counter accepted.
use toki.Base.{
  ℕ, ◌+◌, ◌≤◌, ◌<◌, ◌≡◌, refl, ap, Bool, true, false, ◌||◌, List, [], ◌∷◌, leb, arith, any,
  if◌then◌else◌, Bool-cases, inl, inr,
}
use toki.Base.Int.{ℤ, pos, negsuc, ◌-ℤ◌, ltb_ℤ}
use toki.Net.Bytes.{mem, delete_where, mem-delete_where}
use toki.Net.ReplayFilter.{ReplayFilter, window, fresh_filter, leb_ℤ, check, check_all}

-- A counter is refused if it was accepted before, or if one at least 1024 higher was.
unfoldable pub ideal_check : ℕ → List ℕ → List ℕ × Bool
ideal_check n accepted =
    if mem n accepted || any (λ a. leb (n + window) a) accepted
    then (accepted, false)
    else (n ∷ accepted, true)

unfoldable pub ideal_check_all : List ℕ → List ℕ → List ℕ × List Bool
ideal_check_all [] accepted = (accepted, [])
ideal_check_all (n ∷ ns) accepted =
    let (accepted', ok) = ideal_check n accepted in
    let (accepted'', oks) = ideal_check_all ns accepted' in (accepted'', ok ∷ oks)

-- The highest counter accepted, or -1.
abbrev pub IsHigh : ℤ → List ℕ → Type 0
IsHigh (negsuc k) accepted = (k ≡ 0) × (accepted ≡ [])
IsHigh (pos h) accepted = (mem h accepted ≡ true) × ((a : ℕ) → mem a accepted ≡ true → a ≤ h)

pub record Tracks (f : ReplayFilter) (accepted : List ℕ) : Type 0 where
  pub highest : IsHigh f.high accepted
  pub sound : (a : ℕ) → mem a f.bits ≡ true → mem a accepted ≡ true
  pub complete :
      (a : ℕ)
      → mem a accepted ≡ true
      → leb_ℤ (pos a) (f.high -ℤ pos window) ≡ false
      → mem a f.bits ≡ true

any-none :
    (n : ℕ) (l : List ℕ) (h : ℕ)
    → ((a : ℕ) → mem a l ≡ true → a ≤ h)
    → h < n
    → any (λ a. leb n a) l ≡ false
unfolding mem
any-none n [] h bound low = refl
any-none n (x ∷ l) h bound low =
    ground (arith, bound x, any-none n l h (λ a m. bound a (ground arith)))

any-some : (n : ℕ) (l : List ℕ) (h : ℕ) → mem h l ≡ true → n ≤ h → any (λ a. leb n a) l ≡ true
unfolding mem
any-some n [] h m low = cc
any-some n (x ∷ l) h m low = ground (arith, any-some n l h)

-- A counter above all others is accepted, and becomes the highest.
raise :
    (n : ℕ) (high : ℤ) (bits accepted : List ℕ)
    → ltb_ℤ high (pos n) ≡ true
    → Tracks (record { high = high; bits = bits }) accepted
    → Tracks
        (record {
          high = pos n;
          bits = n ∷ delete_where (λ seen. leb_ℤ (pos seen) (high -ℤ pos window)) bits;
        })
        (n ∷ accepted)
unfolding mem ◌-ℤ◌
raise n (pos h) bits accepted above t = record {
  highest = (ground arith, λ a m. ground (arith, t.highest.1 a));
  sound = λ a m.
      ground (
        arith,
        t.sound a,
        mem-delete_where (λ seen. leb_ℤ (pos seen) (pos h -ℤ pos window)) a bits,
      );
  complete = λ a m near. ground (
    arith,
    t.complete a,
    t.highest.1 a,
    mem-delete_where (λ seen. leb_ℤ (pos seen) (pos h -ℤ pos window)) a bits,
  );
}
raise n (negsuc k) bits accepted above t = record {
  highest = (ground arith, λ a m. ground (arith, ap (mem a) t.highest.1));
  sound = λ a m. ground (
    arith,
    t.sound a,
    mem-delete_where (λ seen. leb_ℤ (pos seen) (negsuc k -ℤ pos window)) a bits,
  );
  complete = λ a m near. ground (arith, ap (mem a) t.highest.1);
}

-- One inside the window is remembered.
remember :
    (n h : ℕ) (bits accepted : List ℕ)
    → n ≤ h
    → Tracks (record { high = pos h; bits = bits }) accepted
    → Tracks (record { high = pos h; bits = n ∷ bits }) (n ∷ accepted)
unfolding mem
remember n h bits accepted below t = record {
  highest = (ground (arith, t.highest.0), λ a m. ground (arith, t.highest.1 a));
  sound = λ a m. ground (arith, t.sound a);
  complete = λ a m near. ground (arith, t.complete a);
}

-- What the ideal filter answers, from the highest counter.
ideal_check-IsHigh :
    (n : ℕ) (high : ℤ) (bits accepted : List ℕ)
    → Tracks (record { high = high; bits = bits }) accepted
    → ideal_check n accepted ≡ (
        if leb_ℤ (pos n) (high -ℤ pos window) || (if ltb_ℤ high (pos n) then false else mem n bits)
        then (accepted, false)
        else (n ∷ accepted, true))
unfolding ideal_check mem ◌-ℤ◌
ideal_check-IsHigh n (negsuc k) bits accepted t =
    ground
      (arith, t.highest.0, ap (mem n) t.highest.1, ap (any (λ a. leb (n + window) a)) t.highest.1)
ideal_check-IsHigh n (pos h) bits accepted t = elim (Bool-cases (leb (n + window) h)) [
  | inl old ↦ ground (arith, any-some (n + window) accepted h t.highest.0)
  | inr near ↦ ground (
    arith,
    any-none (n + window) accepted h t.highest.1 (ground arith),
    t.highest.1 n,
    t.sound n,
    t.complete n,
  )
]

check_above :
    (n : ℕ) (high : ℤ) (bits : List ℕ)
    → ltb_ℤ high (pos n) ≡ true
    → check n (record { high = high; bits = bits }) ≡ (
      record {
        high = pos n;
        bits = n ∷ delete_where (λ seen. leb_ℤ (pos seen) (high -ℤ pos window)) bits;
      },
      true,
    )
unfolding check
check_above n high bits above = rw above

not_old :
    (n : ℕ) (high : ℤ) → ltb_ℤ high (pos n) ≡ true → leb_ℤ (pos n) (high -ℤ pos window) ≡ false
unfolding ◌-ℤ◌
not_old n high above = ground arith

check_below :
    (n : ℕ) (high : ℤ) (bits : List ℕ)
    → ltb_ℤ high (pos n) ≡ false
    → check n (record { high = high; bits = bits }) ≡ (
        if leb_ℤ (pos n) (high -ℤ pos window) || mem n bits
        then (record { high = high; bits = bits }, false)
        else (record { high = high; bits = n ∷ bits }, true))
unfolding check
check_below n high bits below = ground arith

check_both :
    (n : ℕ) (high : ℤ) (bits accepted : List ℕ)
    → Tracks (record { high = high; bits = bits }) accepted
    → ltb_ℤ high (pos n) ≡ false
    → Tracks (record { high = high; bits = n ∷ bits }) (n ∷ accepted)
check_both n (pos h) bits accepted t below = remember n h bits accepted (ground arith) t
check_both n (negsuc k) bits accepted t below = absurd (ground arith)

check-ideal :
    (n : ℕ) (f : ReplayFilter) (accepted : List ℕ)
    → Tracks f accepted
    → Tracks (check n f).0 (ideal_check n accepted).0 × ((check n f).1 ≡ (ideal_check n accepted).1)
check-ideal n f accepted t = elim (Bool-cases (ltb_ℤ f.high (pos n))) [
  | inl above ↦
      rw
        (
          check_above n f.high f.bits above,
          ideal_check-IsHigh n f.high f.bits accepted t,
          not_old n f.high above,
          above,
        )
        (raise n f.high f.bits accepted above t, refl)
  | inr below ↦ elim (Bool-cases (leb_ℤ (pos n) (f.high -ℤ pos window) || mem n f.bits)) [
    | inl refused ↦
        rw
          (
            check_below n f.high f.bits below,
            ideal_check-IsHigh n f.high f.bits accepted t,
            below,
            refused,
          )
          (t, refl)
    | inr fresh ↦
        rw
          (
            check_below n f.high f.bits below,
            ideal_check-IsHigh n f.high f.bits accepted t,
            below,
            fresh,
          )
          (check_both n f.high f.bits accepted t below, refl)
  ]
]

check_all-ideal :
    (ns : List ℕ) (f : ReplayFilter) (accepted : List ℕ)
    → Tracks f accepted
    → (check_all ns f).1 ≡ (ideal_check_all ns accepted).1
unfolding check_all ideal_check_all
check_all-ideal [] f accepted t = refl
check_all-ideal (n ∷ ns) f accepted t =
    let (t', same) = check-ideal n f accepted t in
    let rest = check_all-ideal ns (check n f).0 (ideal_check n accepted).0 t' in cc

Tracks-fresh : Tracks fresh_filter []
unfolding mem
Tracks-fresh = record { highest = (refl, refl); sound = λ a m. m; complete = λ a m near. m }

-- The sliding window answers every sequence of counters as the filter that remembers all of them:
-- a counter is refused exactly if it was accepted before or is 1024 or more below one that was.
pub check_all-ideal_fresh :
    (ns : List ℕ) → (check_all ns fresh_filter).1 ≡ (ideal_check_all ns []).1
check_all-ideal_fresh ns = check_all-ideal ns fresh_filter [] Tracks-fresh
