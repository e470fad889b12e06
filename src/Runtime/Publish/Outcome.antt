-- ===== src/Runtime/Publish/Outcome.antt =====
-- What a publication returns.
use eka_core.Base.{String, ◌≡◌, sym, ap, ◌∙◌, >>=-eq-ok, eq_of_ok-eq-ok, ok}
use eka_core.Exchange.{AuthorIdentity, KnowledgeUnit, line_of}
use eka_core.Store.Rows.{Store}
use eka_core.Runtime.World.{TransitionResult, World}
use eka_core.Runtime.Publish.{transitioned, publish, plain_result, publish_state_transition}

pub publish_state_transition-eq-ok :
    (w : World) (s : Store) (project source_repo : String) (current : KnowledgeUnit)
    (from to domain : String) (by : AuthorIdentity) (after : Store) (result : TransitionResult)
    → publish_state_transition w s project source_repo current from to domain by
      ≡ ok (after, result)
    → (result.from ≡ from)
      × (result.to ≡ to)
      × (publish w s project source_repo (transitioned w.today domain from to by current)
          ≡ ok (after, result.object_hash))
unfolding publish_state_transition
publish_state_transition-eq-ok w s project source_repo current from to domain by after result e =
    let ((t, hash), published, r) =
      >>=-eq-ok (publish w s project source_repo (transitioned w.today domain from to by current)) _
        e in
    let same =
      eq_of_ok-eq-ok (t, plain_result (line_of current.identity) from to by hash "") (after, result)
        r in
    (
      sym (ap (λ p. p.1.from) same),
      sym (ap (λ p. p.1.to) same),
      published ∙ ap (λ p. ok (p.0, p.1.object_hash)) same,
    )
