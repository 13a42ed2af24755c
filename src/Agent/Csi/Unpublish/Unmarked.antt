-- ===== src/Agent/Csi/Unpublish/Unmarked.antt =====
-- A slot whose last flush did not complete is not dropped as a cache: agent/src/csi.rs and reaper.rs.
use kubimo.Common.{
  ℕ, Bool, true, false, ◌≡◌, ◌≢◌, refl, ap, ◌∙◌, some, String, ◌∷◌, number_partial_eq,
}
use kubimo.Common.Result.{Result, ok, err}
use kubimo.Agent.Store.Publish.{PublishedSlot}
use kubimo.Agent.Store.Slots.{clear_flushed}
use kubimo.Agent.Store.Slots.Cleared.{flushed_ago-clear_flushed}
use kubimo.Agent.Reaper.{Reclaim, deleted, reclaim_locked}
use kubimo.Agent.Reaper.Unmarked.{unmarked-kept}
use kubimo.Agent.Csi.Node.{S3Client, ArchiveLocation, flush_slot, Config, State, Answers, on_volume}
use kubimo.Agent.Csi.Unpublish.{after_flush, flush_if, flush_target, flush_published_slot}

module _ (config : Config) (world : Answers) (published : PublishedSlot) (s : State) where
  -- The state in which the flush is begun.
  abbrev pub at_flush : State
  at_flush = on_volume (clear_flushed published.namespace published.workspace) s

  incomplete :
      (r : Result String Bool) (t : State)
      → r ≢ ok true
      → after_flush config world published r t ≡ t
  unfolding after_flush
  incomplete (ok true) t h = absurd (h refl)
  incomplete (ok false) t h = refl
  incomplete (err e) t h = refl

  -- When a flush is made and does not complete, and the old marker could be cleared before it, the
  -- reaper keeps the slot, as long as the workspace is there and nothing flushes it again.
  pub flush_published_slot-kept :
      (archive : ArchiveLocation) (s3 : S3Client) (why : Reclaim) (idle_ttl : ℕ)
      → flush_target config world published s ≡ some (archive, s3)
      → (clear_flushed published.namespace published.workspace s.volume).0 ≡ ok tt
      → world.does at_flush.trace (flush_slot published.slot published.workspace archive s3)
        ≢ ok true
      → why ≢ deleted
      → reclaim_locked why idle_ttl published.namespace published.workspace
          (flush_published_slot config world published s).volume
        ≡ (0, (flush_published_slot config world published s).volume)
  unfolding flush_published_slot
  flush_published_slot-kept archive s3 why idle_ttl target clear failed alive =
      let a = flush_slot published.slot published.workspace archive s3 in
      let t : State = record at_flush { trace = a ∷ at_flush.trace } in
      let same = incomplete (world.does at_flush.trace a) t failed in
      let left : (flush_published_slot config world published s).volume ≡ at_flush.volume =
        ap (λ o. (flush_if config world published o s).volume) target
        ∙ ap (λ (u : State). u.volume) same in
      let w = (clear_flushed published.namespace published.workspace s.volume).1 in
      rw left (
        unmarked-kept why idle_ttl published.namespace published.workspace w alive (
          flushed_ago-clear_flushed published.namespace published.workspace s.volume w
            (λ i. (clear i, w))))
