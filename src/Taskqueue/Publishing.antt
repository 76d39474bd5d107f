-- ===== src/Taskqueue/Publishing.antt =====
-- taskqueue.py's `_publish` and its one reconnect.
use markitdown_server.Prelude.{◌≡◌, refl, ap, List, [], ◌∷◌, ◌++◌}
use markitdown_server.Storage.{Bytes}
use markitdown_server.Taskqueue.{
  Outcome, fine, amqp_error, other_error, Pass, publish_bodies, publish_pass, second_pass,
  publish_all,
}

-- What a list begins with.
abbrev pub IsPrefix : List Bytes → List Bytes → Type 0
IsPrefix xs ys = (rest : List Bytes) × (xs ++ rest ≡ ys)

-- A pass sends the bodies from the first on, in order; one that ends well has sent them all.
abbrev SendsInOrder : List Bytes → Pass → Type 0
SendsInOrder bodies p = IsPrefix p.sent bodies × (p.ended ≡ fine → p.sent ≡ bodies)

publish_bodies-SendsInOrder :
    (bodies : List Bytes) (outcomes : List Outcome)
    → SendsInOrder bodies (publish_bodies bodies outcomes)
unfolding publish_bodies
publish_bodies-SendsInOrder [] outcomes = (([], refl), λ h. refl)
publish_bodies-SendsInOrder (b ∷ bodies) [] =
    let ((rest, begins), complete) = publish_bodies-SendsInOrder bodies [] in
    ((rest, ap (λ x. b ∷ x) begins), λ h. ap (λ x. b ∷ x) (complete h))
publish_bodies-SendsInOrder (b ∷ bodies) (fine ∷ outcomes) =
    let ((rest, begins), complete) = publish_bodies-SendsInOrder bodies outcomes in
    ((rest, ap (λ x. b ∷ x) begins), λ h. ap (λ x. b ∷ x) (complete h))
publish_bodies-SendsInOrder (b ∷ bodies) (amqp_error ∷ outcomes) = ((b ∷ bodies, refl), λ h. cc)
publish_bodies-SendsInOrder (b ∷ bodies) (other_error ∷ outcomes) = ((b ∷ bodies, refl), λ h. cc)

publish_pass-SendsInOrder :
    (bodies : List Bytes) (outcomes : List Outcome)
    → SendsInOrder bodies (publish_pass bodies outcomes)
publish_pass-SendsInOrder bodies [] = unfold publish_pass in publish_bodies-SendsInOrder bodies []
publish_pass-SendsInOrder bodies (fine ∷ outcomes) =
    unfold publish_pass in publish_bodies-SendsInOrder bodies outcomes
publish_pass-SendsInOrder bodies (amqp_error ∷ outcomes) =
    unfold publish_pass in ((bodies, refl), λ h. cc)
publish_pass-SendsInOrder bodies (other_error ∷ outcomes) =
    unfold publish_pass in ((bodies, refl), λ h. cc)

second_pass-delivers :
    (bodies : List Bytes) (p : Pass)
    → SendsInOrder bodies p
    → (second_pass bodies p).ended ≡ fine
    → (repeated : List Bytes) × IsPrefix repeated bodies
      × ((second_pass bodies p).sent ≡ repeated ++ bodies)
unfolding second_pass
second_pass-delivers bodies p (begins, complete) = on_end p.ended refl
  where
    on_end :
        (e : Outcome)
        → p.ended ≡ e
        → (second_pass bodies p).ended ≡ fine
        → (repeated : List Bytes) × IsPrefix repeated bodies
          × ((second_pass bodies p).sent ≡ repeated ++ bodies)
    on_end fine e h = rw e ([], (bodies, refl), complete e)
    on_end amqp_error e h =
        let again = (publish_pass-SendsInOrder bodies p.outcomes).1 in
        rw e (p.sent, begins, ap (λ x. p.sent ++ x) (again (rw e at h)))
    on_end other_error e h = absurd (cc)

-- Whatever the broker does, if `_publish` returns then every body has been sent, in order and once, behind a repeated beginning of the
-- bodies that an AMQPError cut off: publishing is at least once, and never skips a body.
pub publish_all-delivers :
    (bodies : List Bytes) (outcomes : List Outcome)
    → (publish_all bodies outcomes).ended ≡ fine
    → (repeated : List Bytes) × IsPrefix repeated bodies
      × ((publish_all bodies outcomes).sent ≡ repeated ++ bodies)
publish_all-delivers bodies outcomes =
    unfold publish_all in
    second_pass-delivers bodies (publish_pass bodies outcomes)
      (publish_pass-SendsInOrder bodies outcomes)
