-- ===== src/PrepReal/Named.antt =====
-- Indices, and the names that they stand for.
use analysis_app.Prelude.{
  ℕ, zero, suc, ◌-◌, ◌≡◌, refl, ap, inl, inr, String, true, leb, some, List, [], ◌∷◌, ◌++◌, length,
  get_elem?, map, All, Bool-cases,
}
use analysis_app.Prelude.Int.{ℤ, pos, negsuc}
use analysis_app.Prelude.Text.{member}
use analysis_app.Prelude.Results.{ok, raised, ◌>>=◌, each, bind_ok}
use analysis_app.Features.Arrays.{index}
use analysis_app.Datasets.Npz.{class_name}
use analysis_app.Capture.Loop.Names.{AreNamed, elem-append_left}
use analysis_app.PrepReal.{index_of, label_at}
use analysis_app.PrepReal.Sources.{IsExtended, index_of-named}

pub AreNamed-longer :
    (names longer : List String) (ys : List ℕ) (ts : List String)
    → IsExtended names longer
    → AreNamed names ys ts
    → AreNamed longer ys ts
AreNamed-longer names longer [] [] more h = tt
AreNamed-longer names longer [] (t ∷ ts) more h = absurd h
AreNamed-longer names longer (y ∷ ys) [] more h = absurd h
AreNamed-longer names longer (y ∷ ys) (t ∷ ts) (more, e) (h, hs) =
    (rw e (elem-append_left names more y t h), AreNamed-longer names longer ys ts (more, e) hs)

pub AreNamed-both :
    (names : List String) (ys zs : List ℕ) (ts us : List String)
    → AreNamed names ys ts
    → AreNamed names zs us
    → AreNamed names (ys ++ zs) (ts ++ us)
AreNamed-both names [] zs [] us h g = g
AreNamed-both names [] zs (t ∷ ts) us h g = absurd h
AreNamed-both names (y ∷ ys) zs [] us h g = absurd h
AreNamed-both names (y ∷ ys) zs (t ∷ ts) us (h, hs) g = (h, AreNamed-both names ys zs ts us hs g)

length-AreNamed :
    (names : List String) (ys : List ℕ) (ts : List String)
    → AreNamed names ys ts
    → length ys ≡ length ts
length-AreNamed names [] [] h = refl
length-AreNamed names [] (t ∷ ts) h = absurd h
length-AreNamed names (y ∷ ys) [] h = absurd h
length-AreNamed names (y ∷ ys) (t ∷ ts) (h, hs) = ap suc (length-AreNamed names ys ts hs)

pub each_named :
    (str : ℤ → String) (names : List String) (ys : List ℕ) (ts : List String)
    → AreNamed names ys ts
    → each (class_name str names) (map (λ i. pos i) ys) ≡ ok ts
unfolding class_name
each_named str names [] [] h = refl
each_named str names [] (t ∷ ts) h = absurd h
each_named str names (y ∷ ys) [] h = absurd h
each_named str names (y ∷ ys) (t ∷ ts) (h, hs) = rw (h, each_named str names ys ts hs) refl

pub remap_named :
    (names cs : List String)
    → All (λ c. member c names ≡ true) cs
    → (remap : List ℕ) × (each (index_of names) cs ≡ ok remap) × AreNamed names remap cs
remap_named names [] h = ([], refl, tt)
remap_named names (c ∷ cs) (h, hs) =
    let (i, e, named) = index_of-named names c h in
    let (remap, d, rest) = remap_named names cs hs in (i ∷ remap, rw (e, d) refl, (named, rest))

index_named :
    (names : List String) (remap : List ℕ) (cs : List String) (k : ℕ) (t : String)
    → AreNamed names remap cs
    → index cs k ≡ ok t
    → (i : ℕ) × (index remap k ≡ ok i) × (get_elem? names i ≡ some t)
index_named names [] [] k t h e = cc
index_named names [] (c ∷ cs) k t h e = absurd h
index_named names (r ∷ remap) [] k t h e = absurd h
index_named names (r ∷ remap) (c ∷ cs) zero t (h, hs) e =
    let same : c ≡ t = cc in (r, refl, rw (← same) h)
index_named names (r ∷ remap) (c ∷ cs) (suc k) t (h, hs) e = index_named names remap cs k t hs e

label_at-named :
    (names : List String) (remap : List ℕ) (cs : List String) (z : ℤ) (t : String)
    → AreNamed names remap cs
    → label_at cs z ≡ ok t
    → (i : ℕ) × (label_at remap z ≡ ok i) × (get_elem? names i ≡ some t)
unfolding label_at
label_at-named names remap cs (pos k) t h e = index_named names remap cs k t h e
label_at-named names remap cs (negsuc n) t h e =
    let same = length-AreNamed names remap cs h in
    elim (Bool-cases (leb (suc n) (length cs))) [
      | inl d ↦
          let at : index cs (length cs - suc n) ≡ ok t = rw d at e in
          rw (same, d) (index_named names remap cs (length cs - suc n) t h at)
      | inr d ↦ let never : raised "index is out of bounds" ≡ ok t = rw d at e in cc
    ]

pub labels_named :
    (names : List String) (remap : List ℕ) (cs : List String) (zs : List ℤ) (ts : List String)
    → AreNamed names remap cs
    → each (label_at cs) zs ≡ ok ts
    → (ys : List ℕ) × (each (label_at remap) zs ≡ ok ys) × AreNamed names ys ts
labels_named names remap cs [] [] h e = ([], refl, tt)
labels_named names remap cs [] (t ∷ ts) h e = cc
labels_named names remap cs (z ∷ zs) [] h e =
    let (t, d, later) =
      bind_ok (label_at cs z) (λ y. each (label_at cs) zs >>= λ ys. ok (y ∷ ys)) [] e in
    let (us, c, whole) = bind_ok (each (label_at cs) zs) (λ ys. ok (t ∷ ys)) [] later in cc
labels_named names remap cs (z ∷ zs) (u ∷ ts) h e =
    let (t, d, later) =
      bind_ok (label_at cs z) (λ y. each (label_at cs) zs >>= λ ys. ok (y ∷ ys)) (u ∷ ts) e in
    let (us, c, whole) = bind_ok (each (label_at cs) zs) (λ ys. ok (t ∷ ys)) (u ∷ ts) later in
    let head : t ≡ u = cc in
    let tail : us ≡ ts = cc in
    let (i, b, named) = label_at-named names remap cs z t h d in
    let (ys, a, rest) = labels_named names remap cs zs us h c in
    (i ∷ ys, rw (b, a) refl, (rw (← head) named, rw (← tail) rest))
