-- ===== src/Net/TcpServer/Live.antt =====
-- The entries of the map of connections of Net/TcpServer.cpp, and the objects that they lead to.
use cloud_assitant.Prelude.{
  ℕ, ◌≡◌, ◌≢◌, ◌⊎◌, refl, sym, ap, ◌∙◌, List, [], ◌∷◌, Option, none, some, Bool, true, false, ◌==◌,
  ◌||◌, All, arith, Bool-cases, inl, inr, ==_iff,
}
use cloud_assitant.Net.TcpServer.{Object, emplace, erase, holds, with_object}

-- The entry of an open connection that will remove itself under this key.
abbrev pub Live : (ℕ → Option Object) → ℕ × ℕ → Type 0
Live objects m =
    (o : Object) × (objects m.1 ≡ some o)
    × (o.connection.is_closed ≡ false)
    × (o.removes ≡ true)
    × (o.connection.channel.sockfd ≡ m.0)

==_self : (n : ℕ) → (n == n) ≡ true
==_self n = ground arith

or_false : (a b : Bool) → (a || b) ≡ false → (a ≡ false) × (b ≡ false)
or_false true b e = cc
or_false false b e = (refl, e)

same_object :
    (objects : ℕ → Option Object) (k j id : ℕ) (o : Object) (l : Live objects (k, j))
    → (j == id) ≡ true
    → objects id ≡ some o
    → l.0 ≡ o
same_object objects k j id o l e f =
    ap (λ x. elim x [ none ↦ o | some y ↦ y ]) (sym l.1 ∙ (ap objects ((==_iff j id).0 e) ∙ f))

pub with_object_self :
    (id : ℕ) (o : Option Object) (objects : ℕ → Option Object) → with_object id o objects id ≡ o
with_object_self id o objects = rw (==_self id) refl

pub with_object-other :
    (id j : ℕ) (o : Option Object) (objects : ℕ → Option Object)
    → (j == id) ≡ false
    → with_object id o objects j ≡ objects j
with_object-other id j o objects e = rw e refl

-- A change of an object that the map does not hold.
pub Live-with_object :
    (objects : ℕ → Option Object) (id : ℕ) (x : Option Object) (cs : List (ℕ × ℕ))
    → holds id cs ≡ false
    → All (Live objects) cs
    → All (Live (with_object id x objects)) cs
unfolding holds
Live-with_object objects id x [] h l = tt
Live-with_object objects id x ((k, j) ∷ cs) h (l, ls) = elim (Bool-cases (j == id)) [
  | inl e ↦ (let n = (or_false (j == id) (holds id cs) h).0 in cc)
  | inr e ↦ (
    (l.0, with_object-other id j x objects e ∙ l.1, l.2, l.3, l.4),
    Live-with_object objects id x cs (or_false (j == id) (holds id cs) h).1 ls,
  )
]

-- The map does not hold what does not exist.
pub holds-none :
    (objects : ℕ → Option Object) (id : ℕ) (cs : List (ℕ × ℕ))
    → objects id ≡ none
    → All (Live objects) cs
    → holds id cs ≡ false
unfolding holds
holds-none objects id [] n l = refl
holds-none objects id ((k, j) ∷ cs) n (l, ls) = elim (Bool-cases (j == id)) [
  | inl e ↦ (let f = sym l.1 ∙ (ap objects ((==_iff j id).0 e) ∙ n) in cc)
  | inr e ↦ rw e (holds-none objects id cs n ls)
]

pub emplace-All :
    (P : ℕ × ℕ → Type 0) (fd id : ℕ) (cs : List (ℕ × ℕ))
    → P (fd, id)
    → All P cs
    → All P (emplace fd id cs)
unfolding emplace
emplace-All P fd id [] p a = (p, tt)
emplace-All P fd id ((k, j) ∷ cs) p (q, a) = elim (Bool-cases (k == fd)) [
  | inl e ↦ rw e (q, a)
  | inr e ↦ rw e (q, emplace-All P fd id cs p a)
]

pub erase-Live :
    (objects : ℕ → Option Object) (fd : ℕ) (cs : List (ℕ × ℕ))
    → All (Live objects) cs
    → All (Live objects) (erase fd cs)
unfolding erase
erase-Live objects fd [] l = tt
erase-Live objects fd ((k, j) ∷ cs) (l, ls) = elim (Bool-cases (k == fd)) [
  | inl e ↦ rw e (erase-Live objects fd cs ls)
  | inr e ↦ rw e (l, erase-Live objects fd cs ls)
]

-- Once its key is erased, the map does not hold a connection.
pub holds-erase :
    (objects : ℕ → Option Object) (id : ℕ) (o : Object) (cs : List (ℕ × ℕ))
    → objects id ≡ some o
    → All (Live objects) cs
    → holds id (erase o.connection.channel.sockfd cs) ≡ false
unfolding erase holds
holds-erase objects id o [] e l = refl
holds-erase objects id o ((k, j) ∷ cs) e (l, ls) =
    elim (Bool-cases (k == o.connection.channel.sockfd)) [
      | inl f ↦ rw f (holds-erase objects id o cs e ls)
      | inr f ↦ rw f (elim (Bool-cases (j == id)) [
        | inl g ↦
            (let q = (==_iff k o.connection.channel.sockfd).1 (
                sym l.4
                ∙ ap (λ x. x.connection.channel.sockfd) (same_object objects k j id o l g e)) in
              cc)
        | inr g ↦ rw g (holds-erase objects id o cs e ls)
      ])
    ]

-- The map does not hold a connection that does not remove itself.
pub holds-removes :
    (objects : ℕ → Option Object) (id : ℕ) (o : Object) (cs : List (ℕ × ℕ))
    → objects id ≡ some o
    → o.removes ≡ false
    → All (Live objects) cs
    → holds id cs ≡ false
unfolding holds
holds-removes objects id o [] e r l = refl
holds-removes objects id o ((k, j) ∷ cs) e r (l, ls) = elim (Bool-cases (j == id)) [
  | inl f ↦ (let q = sym l.3 ∙ (ap (λ x. x.removes) (same_object objects k j id o l f e) ∙ r) in cc)
  | inr f ↦ rw f (holds-removes objects id o cs e r ls)
]

-- Nothing that does not exist appears.
pub with_object-fresh :
    (objects : ℕ → Option Object) (id j : ℕ) (x : Option Object)
    → objects id ≢ none ⊎ (x ≡ none)
    → objects j ≡ none
    → with_object id x objects j ≡ none
with_object-fresh objects id j x h n = elim (Bool-cases (j == id)) [
  | inl e ↦
      rw e (elim h [ inl f ↦ absurd (f (ap objects (sym ((==_iff j id).0 e)) ∙ n)) | inr f ↦ f ])
  | inr e ↦ rw e n
]
