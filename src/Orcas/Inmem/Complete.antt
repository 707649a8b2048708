-- ===== src/Orcas/Inmem/Complete.antt =====
-- handlers/inmem/inmem.go: the opaques that GetE answers.
use rend.Prelude.{ℕ, ◌≡◌, refl, Bool, List, [], ◌∷◌, map, length, Option, none, some, arith, Bytes}
use rend.Orcas.{Handler, Responder, received}
use rend.Orcas.L1L2.Answered.{asked, arrived, opaque_of_e, AnswersAll}
use rend.Orcas.Inmem.{inmem}
use rend.Inmem.{Entry}
use rend.Inmem.Live.{live}
use rend.Inmem.Answers.{e_response, responses, get-Answers}

opaque-e_response :
    (x : Option Entry) (k : Bytes) (o : ℕ) (q : Bool) → opaque_of_e (e_response x k o q) ≡ o
opaque-e_response none k o q = refl
opaque-e_response (some e) k o q = refl

arrived-responses :
    (view : Bytes → Option Entry) (o : ℕ) (ks : List Bytes) (os : List ℕ) (qs : List Bool)
    → length os ≡ length ks
    → length qs ≡ length ks
    → arrived opaque_of_e o (map received (responses e_response view ks os qs)) ≡ asked o os
arrived-responses view o [] [] qs e f = refl
arrived-responses view o [] (x ∷ os) qs e f = absurd (omega arith)
arrived-responses view o (k ∷ ks) [] qs e f = absurd (omega arith)
arrived-responses view o (k ∷ ks) (x ∷ os) [] e f = absurd (omega arith)
arrived-responses view o (k ∷ ks) (x ∷ os) (q ∷ qs) e f =
    let rest = arrived-responses view o ks os qs (omega arith) (omega arith) in
    rw (opaque-e_response (view k) k x q, rest) refl

pub inmem-AnswersAll :
    (now : ℕ) (l1 : Handler) (res : Responder) (o : ℕ) → AnswersAll l1 (inmem now) res o
inmem-AnswersAll now l1 res o r s p =
    let (h, done, same) = (get-Answers now r s p.opaques_match p.quiet_match).1 in
    rw done
      (arrived-responses (live now s) o r.keys r.opaques r.quiet p.opaques_match p.quiet_match)
