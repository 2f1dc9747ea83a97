-- ===== src/History/Laws/Evicting.antt =====
-- The journal is bounded, and an append drops an oldest entry only, be it the new one.
use gwm_cli.Base.{
  ℕ, ◌+◌, ◌≤◌, ◌<◌, ◌≡◌, inl, inr, refl, ap, true, false, not, ◌||◌, [], ◌∷◌, ◌++◌, Option, none,
  some, arith, ltb, leb, ltb→lt, length, length-append, all, any, Bool, sym, ◌∙◌, Bool-cases,
}
use mathlib.Core.Path.{subst}
use mathlib.Core.List.{append_assoc, append-nil}
use gwm_cli.History.{max_entries, OpEntry, Journal, every, is_older, chosen, evicted, append}
use gwm_cli.History.Laws.Choosing.{Found, chosen-Found, all_imp, remove_at-Chosen}

-- `j` is `full` without one entry, which is older than all before it and no younger than any
-- behind it.
pub record WithoutOldest (full j : Journal) : Type 0 where
  pub before : Journal
  pub oldest : OpEntry
  pub after : Journal
  pub whole : full ≡ before ++ oldest ∷ after
  pub rest : j ≡ before ++ after
  pub youngers : all (λ y. ltb oldest.ts y.ts) before ≡ true
  pub no_older : all (λ y. leb oldest.ts y.ts) after ≡ true

-- What an append to `entries` leaves. A full journal loses its oldest entry, unless all its entries
-- are younger than the new one: then the new one is not kept.
pub data Appended (entry : OpEntry) (entries j : Journal) : Type 0 where
  added : length entries < max_entries → j ≡ entries ++ entry ∷ [] → Appended entry entries j
  rotated :
      (kept : Journal)
      → length entries ≡ max_entries
      → WithoutOldest entries kept
      → any (λ y. leb y.ts entry.ts) entries ≡ true
      → j ≡ kept ++ entry ∷ []
      → Appended entry entries j
  not_kept :
      length entries ≡ max_entries
      → all (λ y. ltb entry.ts y.ts) entries ≡ true
      → j ≡ entries
      → Appended entry entries j

is_older-over : (x b y : OpEntry) → is_older x b ≡ true → is_older b y ≡ true → is_older x y ≡ true
unfolding is_older
is_older-over x b y h k = ground arith

is_older-across :
    (x b y : OpEntry) → is_older x b ≡ true → is_older y b ≡ false → is_older x y ≡ true
unfolding is_older
is_older-across x b y h k = ground arith

oldest-Found : (entries : Journal) → Found every is_older entries (chosen every is_older entries)
oldest-Found = chosen-Found every is_older is_older-over is_older-across

not_older : (y e : OpEntry) → (not true || not (is_older y e)) ≡ true → leb e.ts y.ts ≡ true
unfolding is_older
not_older y e h = ground arith

evict :
    (full : Journal) (c : Option (ℕ × OpEntry))
    → 0 < length full
    → Found every is_older full c
    → (j : Journal) × (evicted c full ≡ some j) × WithoutOldest full j
evict [] none p h = absurd (omega arith)
evict (x ∷ full) none p h = cc
evict full (some (i, e)) p h = (
  h.before ++ h.after,
  rw (evicted, remove_at-Chosen h),
  record {
    before = h.before;
    oldest = e;
    after = h.after;
    whole = h.whole;
    rest = refl;
    youngers = unfold is_older in h.beaten;
    no_older = all_imp _ _ h.after (λ y. not_older y e) h.unbeaten;
  },
)

-- The removal of the oldest entry never panics, whatever the length of the journal.
pub append-total :
    (entry : OpEntry) (entries : Journal) → (j : Journal) × (append entry entries ≡ some j)
unfolding append
append-total entry entries = elim (Bool-cases (ltb max_entries (length (entries ++ entry ∷ [])))) [
  | inl full ↦
      let n = length-append {0} entries (entry ∷ []) in
      let (j, e, w) =
        evict (entries ++ entry ∷ []) (chosen every is_older (entries ++ entry ∷ []))
          (omega (arith, n)) (oldest-Found (entries ++ entry ∷ [])) in
      (j, rw full e)
  | inr room ↦ (entries ++ entry ∷ [], rw room refl)
]

length-WithoutOldest : {full j : Journal} → WithoutOldest full j → length full ≡ length j + 1
length-WithoutOldest w = omega (
  arith,
  ap length w.whole,
  ap length w.rest,
  length-append {0} w.before (w.oldest ∷ w.after),
  length-append {0} w.before w.after,
)

-- The last element of a list that is cut at an element: that element, or the last one behind it.
data LastOf (xs : Journal) (e : OpEntry) (before : Journal) (o : OpEntry) (after : Journal)
    : Type 0 where
  is_cut : after ≡ [] → before ≡ xs → o ≡ e → LastOf xs e before o after
  behind :
      (rest : Journal)
      → after ≡ rest ++ e ∷ []
      → xs ≡ before ++ o ∷ rest
      → LastOf xs e before o after

last_of :
    (xs : Journal) (e : OpEntry) (before : Journal) (o : OpEntry) (after : Journal)
    → xs ++ e ∷ [] ≡ before ++ o ∷ after
    → LastOf xs e before o after
last_of [] e [] o after h = is_cut (cc) refl (cc)
last_of [] e (b ∷ []) o after h = cc
last_of [] e (b ∷ c ∷ before) o after h = cc
last_of (x ∷ xs) e [] o after h = behind xs (cc) (cc)
last_of (x ∷ xs) e (b ∷ before) o after h = elim (last_of xs e before o after (cc)) [
  | is_cut p q r ↦ is_cut p (cc q) r
  | behind rest p q ↦ behind rest p (cc q)
]

all-append_last :
    (q : OpEntry → Bool) (xs : Journal) (e : OpEntry)
    → all q (xs ++ e ∷ []) ≡ true
    → (all q xs ≡ true) × (q e ≡ true)
all-append_last q [] e h = ground (arith, h)
all-append_last q (x ∷ xs) e h = ground (arith, h, all-append_last q xs e)

any-middle :
    (q : OpEntry → Bool) (xs : Journal) (e : OpEntry) (ys : Journal)
    → q e ≡ true
    → any q (xs ++ e ∷ ys) ≡ true
any-middle q [] e ys h = ground (arith, h)
any-middle q (x ∷ xs) e ys h = ground (arith, any-middle q xs e ys h)

evicted-Appended :
    (entry : OpEntry) (entries j : Journal)
    → length entries ≡ max_entries
    → WithoutOldest (entries ++ entry ∷ []) j
    → Appended entry entries j
evicted-Appended entry entries j n w =
    elim (last_of entries entry w.before w.oldest w.after w.whole) [
      | is_cut p q r ↦
          not_kept n
            (subst (λ xs. all (λ y. ltb entry.ts y.ts) xs ≡ true) q
              (subst (λ o. all (λ y. ltb o.ts y.ts) w.before ≡ true) r w.youngers))
            (w.rest ∙ ap (λ xs. w.before ++ xs) p ∙ append-nil w.before ∙ q)
      | behind rest p q ↦
          let older =
            all-append_last (λ y. leb w.oldest.ts y.ts) rest entry
              (subst (λ xs. all (λ y. leb w.oldest.ts y.ts) xs ≡ true) p w.no_older) in
          rotated (w.before ++ rest) n
            (record {
              before = w.before;
              oldest = w.oldest;
              after = rest;
              whole = q;
              rest = refl;
              youngers = w.youngers;
              no_older = older.0;
            })
            (subst (λ xs. any (λ y. leb y.ts entry.ts) xs ≡ true) (sym q)
              (any-middle (λ y. leb y.ts entry.ts) w.before w.oldest rest older.1))
            (w.rest ∙ ap (λ xs. w.before ++ xs) p ∙ sym (append_assoc w.before rest (entry ∷ [])))
    ]

-- An append to a journal within the bound returns a journal within it. With room, the entry comes
-- last. A full journal loses an entry that is oldest, and the entry comes last; but if all its
-- entries are younger than the new one, the journal stays as it was.
pub append-Appended :
    (entry : OpEntry) (entries : Journal)
    → length entries ≤ max_entries
    → (j : Journal) × (append entry entries ≡ some j)
      × (length j ≤ max_entries)
      × Appended entry entries j
unfolding append
append-Appended entry entries h =
    elim (Bool-cases (ltb max_entries (length (entries ++ entry ∷ [])))) [
      | inl full ↦
          let n = length-append {0} entries (entry ∷ []) in
          let (j, e, w) =
            evict (entries ++ entry ∷ []) (chosen every is_older (entries ++ entry ∷ []))
              (omega (arith, n)) (oldest-Found (entries ++ entry ∷ [])) in
          (
            j,
            rw full e,
            omega (arith, n, length-WithoutOldest w),
            evicted-Appended entry entries j (omega (arith, n, ltb→lt _ _ full)) w,
          )
      | inr room ↦
          let n = length-append {0} entries (entry ∷ []) in
          (
            entries ++ entry ∷ [],
            rw room refl,
            ground (arith, n, room),
            added (ground (arith, n, room)) refl,
          )
    ]
