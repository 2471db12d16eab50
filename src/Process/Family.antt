-- ===== src/Process/Family.antt =====
-- The children of a process (lab8/kern/process/proc.c): `cptr` leads to the youngest, `optr` on to
-- the older ones, and `yptr` back.
use os.Base.{
  ℕ, ◌≡◌, ◌≢◌, refl, sym, ap, ◌∙◌, List, [], ◌∷◌, ◌++◌, false, Bool-cases, inl, inr, ◌==◌, ==_ne,
  ==_refl, if◌then◌else◌, not,
}
use mathlib.Core.Path.{subst}
use os.Links.{store}
use os.Links.Chain.{
  NotIn, NotIn-left, NotIn-right, NotIn-append, NotIn-last, NotIn-head, last_or, head_or,
}
use os.Process.{Processes, store_unless_null, set_links, remove_links}

-- `prev` is the younger sibling of the first.
abbrev pub Siblings : (ℕ → ℕ) → (ℕ → ℕ) → ℕ → List ℕ → Type 0
Siblings y o prev [] = Unit
Siblings y o prev (c ∷ cs) =
    (c ≢ 0) × (y c ≡ prev) × (o c ≡ head_or cs 0) × NotIn c cs × Siblings y o c cs

abbrev pub AllOf : (ℕ → ℕ) → ℕ → List ℕ → Type 0
AllOf parent p [] = Unit
AllOf parent p (c ∷ cs) = (parent c ≡ p) × AllOf parent p cs

-- The children of `p` are `cs`, the youngest first.
pub record IsFamily (t : Processes) (p : ℕ) (cs : List ℕ) : Type 0 where
  pub first : t.cptr p ≡ head_or cs 0
  pub chain : Siblings t.yptr t.optr 0 cs
  pub parents : AllOf t.parent p cs

pub store_self : (f : ℕ → ℕ) (p v : ℕ) → store f p v p ≡ v
store_self f p v = rw (==_refl p) refl

pub store_ne : (f : ℕ → ℕ) (p v q : ℕ) → p ≢ q → store f p v q ≡ f q
store_ne f p v q ne = rw (==_ne p q ne) refl

pub unless_null_self : (f : ℕ → ℕ) (p v : ℕ) → p ≢ 0 → store_unless_null f p v p ≡ v
unless_null_self f p v ne = rw (==_ne p 0 ne, ==_refl p) refl

pub unless_null_ne : (f : ℕ → ℕ) (p v q : ℕ) → p ≢ q → store_unless_null f p v q ≡ f q
unless_null_ne f p v q ne = elim (Bool-cases (p == 0)) [
  | inl null ↦ rw null refl
  | inr there ↦ rw (there, ==_ne p q ne) refl
]

abbrev pub Agree : (ℕ → ℕ) → (ℕ → ℕ) → List ℕ → Type 0
Agree f g [] = Unit
Agree f g (c ∷ cs) = (f c ≡ g c) × Agree f g cs

pub Agree-store : (f : ℕ → ℕ) (p v : ℕ) (cs : List ℕ) → NotIn p cs → Agree (store f p v) f cs
Agree-store f p v [] n = tt
Agree-store f p v (c ∷ cs) (n, ns) = (rw (==_ne p c n) refl, Agree-store f p v cs ns)

pub Agree-unless_null :
    (f : ℕ → ℕ) (p v : ℕ) (cs : List ℕ) → NotIn p cs → Agree (store_unless_null f p v) f cs
Agree-unless_null f p v cs n = elim (Bool-cases (p == 0)) [
  | inl null ↦ rw null (same cs)
  | inr there ↦ rw there (Agree-store f p v cs n)
]
  where
    same : (cs : List ℕ) → Agree f f cs
    same [] = tt
    same (c ∷ cs) = (refl, same cs)

pub Agree-trans : (f g h : ℕ → ℕ) (cs : List ℕ) → Agree f g cs → Agree g h cs → Agree f h cs
Agree-trans f g h [] a b = tt
Agree-trans f g h (c ∷ cs) (a, a_s) (b, b_s) = (a ∙ b, Agree-trans f g h cs a_s b_s)

pub Siblings-Agree :
    (y o y' o' : ℕ → ℕ) (prev : ℕ) (cs : List ℕ)
    → Agree y' y cs
    → Agree o' o cs
    → Siblings y o prev cs
    → Siblings y' o' prev cs
Siblings-Agree y o y' o' prev [] a b s = tt
Siblings-Agree y o y' o' prev (c ∷ cs) (a, a_s) (b, b_s) (ne, yo, ol, new, s) =
    (ne, a ∙ yo, b ∙ ol, new, Siblings-Agree y o y' o' c cs a_s b_s s)

pub AllOf-Agree : (f g : ℕ → ℕ) (p : ℕ) (cs : List ℕ) → Agree g f cs → AllOf f p cs → AllOf g p cs
AllOf-Agree f g p [] a h = tt
AllOf-Agree f g p (c ∷ cs) (a, a_s) (h, hs) = (a ∙ h, AllOf-Agree f g p cs a_s hs)

-- A child of one process is none of another.
pub AllOf-apart :
    (parent : ℕ → ℕ) (p q c : ℕ) (ds : List ℕ)
    → AllOf parent q ds
    → parent c ≡ p
    → p ≢ q
    → NotIn c ds
AllOf-apart parent p q c [] h e ne = tt
AllOf-apart parent p q c (d ∷ ds) (h, hs) e ne =
    (λ same. ne (sym e ∙ ap parent same ∙ h), AllOf-apart parent p q c ds hs e ne)

-- A process put before the first sibling.
pub Siblings-front :
    (y o : ℕ → ℕ) (prev c : ℕ) (cs : List ℕ)
    → c ≢ 0
    → NotIn c cs
    → Siblings y o prev cs
    → Siblings
        (store_unless_null (store y c 0) (head_or cs 0) c)
        (store o c (head_or cs 0))
        0
        (c ∷ cs)
Siblings-front y o prev c [] ne new s = (ne, store_self y c 0, store_self o c 0, tt, tt)
Siblings-front y o prev c (d ∷ ds) ne (c_ne, new) (d_ne, yo, ol, fresh, s) = (
  ne,
  unless_null_ne (store y c 0) d c c (λ e. c_ne (sym e)) ∙ store_self y c 0,
  store_self o c d,
  (c_ne, new),
  (
    d_ne,
    unless_null_self (store y c 0) d c d_ne,
    store_ne o c d d c_ne ∙ ol,
    fresh,
    Siblings-Agree y o _ _ d ds
        (Agree-trans _ (store y c 0) y ds (Agree-unless_null (store y c 0) d c ds fresh)
          (Agree-store y c 0 ds new))
        (Agree-store o c d ds new) s,
  ),
)

-- Two writes that leave the siblings in another list alone.
pub Siblings-others :
    (y o : ℕ → ℕ) (prev c older : ℕ) (ds : List ℕ)
    → NotIn c ds
    → NotIn older ds
    → Siblings y o prev ds
    → Siblings (store_unless_null (store y c 0) older c) (store o c older) prev ds
Siblings-others y o prev c older ds new other s =
    Siblings-Agree y o _ _ prev ds
      (Agree-trans _ (store y c 0) y ds (Agree-unless_null (store y c 0) older c ds other)
        (Agree-store y c 0 ds new))
      (Agree-store o c older ds new) s

pub head-NotIn :
    (parent : ℕ → ℕ) (p q : ℕ) (cs ds : List ℕ)
    → AllOf parent p cs
    → AllOf parent q ds
    → p ≢ q
    → NotIn 0 ds
    → NotIn (head_or cs 0) ds
head-NotIn parent p q [] ds h k ne nz = nz
head-NotIn parent p q (c ∷ cs) ds (h, hs) k ne nz = AllOf-apart parent p q c ds k h ne

pub Siblings-NotIn : (y o : ℕ → ℕ) (prev : ℕ) (ds : List ℕ) → Siblings y o prev ds → NotIn 0 ds
Siblings-NotIn y o prev [] s = tt
Siblings-NotIn y o prev (d ∷ ds) (ne, yo, ol, new, s) = (λ e. ne (sym e), Siblings-NotIn y o d ds s)

module _ {t : Processes} (proc : ℕ) (cs : List ℕ) (there : proc ≢ 0)
    (h : IsFamily t (t.parent proc) cs) (new : NotIn proc cs) where
  pub set_links-IsFamily : IsFamily (set_links proc t) (t.parent proc) (proc ∷ cs)
  unfolding set_links
  set_links-IsFamily = record {
    first = store_self t.cptr (t.parent proc) proc;
    chain =
        subst
          (λ x.
            Siblings (store_unless_null (store t.yptr proc 0) x proc) (store t.optr proc x) 0
              (proc ∷ cs))
          (sym h.first) (Siblings-front t.yptr t.optr 0 proc cs there new h.chain);
    parents = (refl, h.parents);
  }

  pub set_links-others :
      (q : ℕ) (ds : List ℕ)
      → t.parent proc ≢ q
      → NotIn proc ds
      → IsFamily t q ds
      → IsFamily (set_links proc t) q ds
  unfolding set_links
  set_links-others q ds ne fresh k = record {
    first = store_ne t.cptr (t.parent proc) proc q ne ∙ k.first;
    chain =
        Siblings-others t.yptr t.optr 0 proc (t.cptr (t.parent proc)) ds fresh
          (subst (λ x. NotIn x ds) (sym h.first)
            (head-NotIn t.parent (t.parent proc) q cs ds h.parents k.parents ne
              (Siblings-NotIn t.yptr t.optr 0 ds k.chain)))
          k.chain;
    parents = k.parents;
  }

-- The siblings of `e`, and its parent.
young :
    (y o : ℕ → ℕ) (prev : ℕ) (xs : List ℕ) (e : ℕ) (ys : List ℕ)
    → Siblings y o prev (xs ++ e ∷ ys)
    → (y e ≡ last_or prev xs) × (o e ≡ head_or ys 0) × (e ≢ 0)
young y o prev [] e ys (ne, yo, ol, new, s) = (yo, ol, ne)
young y o prev (x ∷ xs) e ys (ne, yo, ol, new, s) = young y o x xs e ys s

AllOf-delete :
    (f : ℕ → ℕ) (p : ℕ) (xs : List ℕ) (e : ℕ) (ys : List ℕ)
    → AllOf f p (xs ++ e ∷ ys)
    → (f e ≡ p) × AllOf f p (xs ++ ys)
AllOf-delete f p [] e ys (h, hs) = (h, hs)
AllOf-delete f p (x ∷ xs) e ys (h, hs) =
    let rest = AllOf-delete f p xs e ys hs in (rest.0, (h, rest.1))

Siblings-delete :
    (y o : ℕ → ℕ) (prev : ℕ) (xs : List ℕ) (e : ℕ) (ys : List ℕ)
    → NotIn prev (xs ++ e ∷ ys)
    → Siblings y o prev (xs ++ e ∷ ys)
    → Siblings (store_unless_null y (o e) (y e)) (store_unless_null o (y e) (o e)) prev (xs ++ ys)
Siblings-delete y o prev [] e [] out (ne, yo, ol, new, s) = tt
Siblings-delete y o prev [] e (d ∷ ds) (out, outs) (ne, yo, ol, (e_ne, new), s) =
    let (d_ne, d_yo, d_ol, fresh, rest) = s in
    (
      d_ne,
      ap (λ a. store_unless_null y a (y e) d) ol ∙ unless_null_self y d (y e) d_ne ∙ yo,
      unless_null_ne o (y e) (o e) d (λ q. outs.0 (sym yo ∙ q)) ∙ d_ol,
      fresh,
      Siblings-Agree y o _ _ d ds
          (Agree-unless_null y (o e) (y e) ds (subst (λ a. NotIn a ds) (sym ol) fresh))
          (Agree-unless_null o (y e) (o e) ds (subst (λ a. NotIn a ds) (sym yo) outs.1)) rest,
    )
Siblings-delete y o prev (x ∷ xs) e ys (out, outs) (ne, yo, ol, new, s) =
    let (e_yo, e_ol, e_ne) = young y o x xs e ys s in
    let behind = NotIn-right x xs (e ∷ ys) new in
    (
      ne,
      unless_null_ne y (o e) (y e) x (λ q. NotIn-head x ys 0 behind.1 ne (sym q ∙ e_ol)) ∙ yo,
      older xs e_yo ol new e_ol,
      NotIn-append x xs ys (NotIn-left x xs (e ∷ ys) new) behind.1,
      Siblings-delete y o x xs e ys new s,
    )
  where
    older :
        (xs : List ℕ)
        → y e ≡ last_or x xs
        → o x ≡ head_or (xs ++ e ∷ ys) 0
        → NotIn x (xs ++ e ∷ ys)
        → o e ≡ head_or ys 0
        → store_unless_null o (y e) (o e) x ≡ head_or (xs ++ ys) 0
    older [] e_yo ol new e_ol =
        ap (λ a. store_unless_null o a (o e) x) e_yo ∙ unless_null_self o x (o e) ne ∙ e_ol
    older (z ∷ zs) e_yo ol (z_ne, new) e_ol =
        unless_null_ne o (y e) (o e) x
          (λ q. NotIn-last x z zs z_ne (NotIn-left x zs (e ∷ ys) new) (sym q ∙ e_yo))
        ∙ ol

module _ {t : Processes} (p : ℕ) (xs : List ℕ) (e : ℕ) (ys : List ℕ)
    (h : IsFamily t p (xs ++ e ∷ ys)) where
  pub parent-delete : t.parent e ≡ p
  parent-delete = (AllOf-delete t.parent p xs e ys h.parents).0

  first-delete :
      (xs : List ℕ)
      → t.yptr e ≡ last_or 0 xs
      → t.cptr p ≡ head_or (xs ++ e ∷ ys) 0
      → NotIn 0 (xs ++ e ∷ ys)
      → t.optr e ≡ head_or ys 0
      → (if not (t.yptr e == 0) then t.cptr else store t.cptr (t.parent e) (t.optr e)) p
        ≡ head_or (xs ++ ys) 0
  first-delete [] yo first nz ol =
      rw yo
        (ap (λ a. store t.cptr a (t.optr e) p) parent-delete ∙ store_self t.cptr p (t.optr e) ∙ ol)
  first-delete (z ∷ zs) yo first (nz, nzs) ol =
      let later : (t.yptr e == 0) ≡ false =
        ==_ne (t.yptr e) 0
          (λ q. NotIn-last 0 z zs nz (NotIn-left 0 zs (e ∷ ys) nzs) (sym q ∙ yo)) in
      rw later first

  pub remove_links-IsFamily : IsFamily (remove_links e t) p (xs ++ ys)
  unfolding remove_links
  remove_links-IsFamily = record {
    first =
        let (yo, ol, ne) = young t.yptr t.optr 0 xs e ys h.chain in
        first-delete xs yo h.first (Siblings-NotIn t.yptr t.optr 0 (xs ++ e ∷ ys) h.chain) ol;
    chain =
        Siblings-delete t.yptr t.optr 0 xs e ys
          (Siblings-NotIn t.yptr t.optr 0 (xs ++ e ∷ ys) h.chain) h.chain;
    parents = (AllOf-delete t.parent p xs e ys h.parents).1;
  }
