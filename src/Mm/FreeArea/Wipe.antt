-- ===== src/Mm/FreeArea/Wipe.antt =====
-- The loop of `free_pages` over the pages that come back: what it leaves behind.
use os.Base.{
  ℕ, zero, suc, ◌+◌, ◌≤◌, ◌<◌, ◌≡◌, refl, ◌∙◌, ◌⊎◌, inl, inr, List, [], ◌∷◌, some, arith, false,
  dec_lt,
}
use os.Links.Chain.{NotIn}
use os.Mm.FreeArea.{Page, FreeArea, page_link, set_page, reset_used}
use os.Mm.FreeArea.Blocks.{Block, Holds, Heads, links_of}

-- The page fields after the loop.
abbrev pub wiped : ℕ → ℕ → (ℕ → Page) → ℕ → Page
wiped zero p pages = pages
wiped (suc n) p pages =
    wiped n (suc p)
      (set_page pages p (record (pages p) { ref = 0; reserved = false; is_head = false }))

pub wiped_outside :
    (n p : ℕ) (pages : ℕ → Page) (q : ℕ) → (q < p) ⊎ (p + n ≤ q) → wiped n p pages q ≡ pages q
wiped_outside zero p pages q h = refl
wiped_outside (suc n) p pages q h = wiped_outside n (suc p) _ q (omega arith) ∙ ground arith

pub wiped_inside :
    (n p : ℕ) (pages : ℕ → Page) (q : ℕ)
    → p ≤ q
    → q < p + n
    → ((wiped n p pages q).is_head ≡ false) × ((wiped n p pages q).reserved ≡ false)
wiped_inside zero p pages q h k = absurd (omega arith)
wiped_inside (suc n) p pages q h k = elim (dec_lt p q) [
  | yes more ↦ wiped_inside n (suc p) _ q (omega arith) (omega arith)
  | no last ↦
      let at : q ≡ p = omega arith in
      rw
        (
          at,
          wiped_outside n (suc p)
              (set_page pages p (record (pages p) { ref = 0; reserved = false; is_head = false })) p
              (inl (omega arith)),
        )
        (ground arith)
]

-- The loop's assertions hold where no page of the range is reserved or heads a free block.
pub reset_used-eq-wiped :
    (n p : ℕ) (s : FreeArea)
    → ((q : ℕ) → p ≤ q → q < p + n → ((s.pages q).reserved ≡ false) × ((s.pages q).is_head ≡ false))
    → reset_used n p s ≡ some (record s { pages = wiped n p s.pages })
unfolding reset_used
reset_used-eq-wiped zero p s h = refl
reset_used-eq-wiped (suc n) p s h =
    rw ((h p (omega arith) (omega arith)).0, (h p (omega arith) (omega arith)).1)
      (reset_used-eq-wiped n (suc p)
        (record s {
          pages =
              set_page s.pages p
                (record (s.pages p) { ref = 0; reserved = false; is_head = false });
        })
        (λ q a b. ground (arith, h q (omega arith) (omega arith))))

Heads-wiped :
    (n p : ℕ) (pages : ℕ → Page) (bs : List Block)
    → ((q : ℕ) → p ≤ q → q < p + n → NotIn (page_link q) (links_of bs))
    → Heads pages bs
    → Heads (wiped n p pages) bs
Heads-wiped n p pages [] k h = tt
Heads-wiped n p pages (b ∷ bs) k h = (
  ground (arith, wiped_outside n p pages b.start, outside),
  Heads-wiped n p pages bs (λ q u v. (k q u v).1) h.1,
)
  where
    outside : (b.start < p) ⊎ (p + n ≤ b.start)
    outside = elim (dec_lt b.start p) [
      | yes lt ↦ inl lt
      | no ge ↦ elim (dec_lt b.start (p + n)) [
        | yes lt ↦ absurd ((k b.start (omega arith) lt).0 refl)
        | no over ↦ inr (omega arith)
      ]
    ]

-- Pages that head no block can be wiped.
pub wiped-Holds :
    {s : FreeArea} {bs : List Block} (n p : ℕ)
    → ((q : ℕ) → p ≤ q → q < p + n → NotIn (page_link q) (links_of bs))
    → Holds s bs
    → Holds (record s { pages = wiped n p s.pages }) bs
wiped-Holds {s} {bs} n p k h = record {
  ring = h.ring;
  within = h.within;
  heads = Heads-wiped n p s.pages bs k h.heads;
  only = λ q m. elim (dec_lt q p) [
    | yes lt ↦ rw (wiped_outside n p s.pages q (inl lt)) (h.only q m)
    | no ge ↦ elim (dec_lt q (p + n)) [
      | yes lt ↦ (wiped_inside n p s.pages q (omega arith) lt).0
      | no over ↦ rw (wiped_outside n p s.pages q (inr (omega arith))) (h.only q m)
    ]
  ];
  counted = h.counted;
  small = h.small;
}
