-- ===== src/Examples/Lists.antt =====
-- lab8/libs/list.h: a ring of two entries.
use os.Base.{refl, [], ◌∷◌, arith, ◌==◌, if◌then◌else◌}
use os.Links.{Links}
use os.Links.Ring.{IsRing}

-- The head is 0, its entries 5 and 7.
abbrev two : Links
two = record {
  next = λ q. if q == 0 then 5 else if q == 5 then 7 else 0;
  prev = λ q. if q == 0 then 7 else if q == 7 then 5 else 0;
}

two-IsRing : IsRing two 0 (5 ∷ 7 ∷ [])
two-IsRing = record {
  forward = (refl, (refl, refl));
  backward = (refl, (refl, refl));
  distinct = omega arith;
}
