-- ===== src/Sig/Connection/Closing.antt =====
-- `Clear` of SigServer/SigConnection.cpp: a connection that goes tells the others.
use cloud_assitant.Prelude.{
  ℕ, zero, suc, ◌+◌, ◌<◌, List, [], ◌∷◌, none, some, length, get_elem?, ◌≡◌, ◌≢◌, refl, sym, ap,
  ◌∙◌, All, arith, Option-cases, inl, inr,
}
use cloud_assitant.Sig.Define.{close}
use cloud_assitant.Sig.Manager.{Code, query_conn}
use cloud_assitant.Sig.Connection.{
  SigConnection, World, put, remove_custom, clear_step, clear_loop, clear,
}
use cloud_assitant.Sig.Connection.Streams.{put_same, put_other}

get_elem?-All :
    {P : Code → Type 0} (xs : List Code) (k : ℕ)
    → All P xs
    → k < length xs
    → (x : Code) × (get_elem? xs k ≡ some x) × P x
get_elem?-All [] k h lt = absurd (omega (arith, lt))
get_elem?-All (x ∷ xs) zero (h, hs) lt = (x, refl, h)
get_elem?-All (x ∷ xs) (suc k) (h, hs) lt = get_elem?-All xs k hs (omega (arith, lt))

clear_step-own :
    (v : World) (i : ℕ) (it : Code)
    → query_conn it v.directory ≢ some i
    → ((clear_step v i it).connections i ≡ v.connections i)
      × ((clear_step v i it).directory ≡ v.directory)
unfolding clear_step
clear_step-own v i it other = elim (Option-cases (query_conn it v.directory)) [
  | inl e ↦ rw (clear_step, e) (refl, refl)
  | inr (j, e) ↦
      rw (clear_step, e)
        (
          put_other v j i (remove_custom (v.connections j) (v.connections i).code)
              (λ same. other (e ∙ ap some (sym same))),
          refl,
        )
]

clear_loop-own :
    (n k : ℕ) (v : World) (i : ℕ) (objects : List Code)
    → All (λ it. query_conn it v.directory ≢ some i) objects
    → (v.connections i).objects ≡ objects
    → k + n ≡ length objects
    → (w' : World) × (clear_loop n k v i ≡ some w') × (w'.connections i ≡ v.connections i)
unfolding clear_loop
clear_loop-own zero k v i objects h own count = (v, refl, refl)
clear_loop-own (suc n) k v i objects h own count =
    let (it, found, other) = get_elem?-All objects k h (omega (arith, count)) in
    let (same, directory) = clear_step-own v i it other in
    let (w', e, kept) =
      clear_loop-own n (suc k) (clear_step v i it) i objects (rw directory h)
        (ap (λ c. c.objects) same ∙ own) (omega (arith, count)) in
    (w', rw (clear_loop, ap (λ t. get_elem? t k) own ∙ found) e, kept ∙ same)

-- A connection none of whose objects leads back to itself closes without undefined behaviour: it
-- is in the state CLOSE, controls nobody, and keeps its code and its objects.
pub clear-closes :
    (w : World) (i : ℕ)
    → All (λ it. query_conn it w.directory ≢ some i) (w.connections i).objects
    → (w' : World) × (clear w i ≡ some w')
      × (w'.connections i ≡ record (w.connections i) { state = close; conn = none })
unfolding clear
clear-closes w i h =
    let (w', e, kept) =
      clear_loop-own (length (w.connections i).objects) 0 (put i closed w) i
        (w.connections i).objects h (ap (λ c. c.objects) (put_same w i closed)) (omega arith) in
    (w', e, kept ∙ put_same w i closed)
  where
    closed : SigConnection
    closed = record (w.connections i) { state = close; conn = none }
