-- ===== src/Agent/Csi/Unpublish/Unblocked.antt =====
-- An unpublish is blocked by nothing but its unmount: agent/src/csi.rs.
use kubimo.Common.{Bool, true, false, ◌≡◌, List}
use kubimo.Common.Result.{ok}
use kubimo.Agent.Store.Names.{is_empty}
use kubimo.Agent.Csi.Node.{Action, unbind, Config, State, Answers}
use kubimo.Agent.Csi.Unpublish.{
  UnpublishRequest, find_published, released, tidy, unmount, node_unpublish_volume,
}

module _ (config : Config) (world : Answers) where
  unmount-ok :
      (request : UnpublishRequest) (b : Bool) (s : State)
      → world.does s.trace (unbind request.target_path) ≡ ok b
      → (unmount config world request s).0 ≡ ok tt
  unfolding unmount tidy
  unmount-ok request true s e = rw e
  unmount-ok request false s e = rw e

  -- If the target is named and the unmount of it succeeds whenever it is asked for, an unpublish
  -- succeeds, whatever the store, the cluster and S3 come to and whatever is published.
  pub unpublish-ok :
      (request : UnpublishRequest) (s : State)
      → is_empty request.target_path ≡ false
      → ((trace : List Action)
          → (b : Bool) × (world.does trace (unbind request.target_path) ≡ ok b))
      → (node_unpublish_volume config world request s).0 ≡ ok tt
  unfolding node_unpublish_volume
  unpublish-ok request s named works =
      let found = find_published config world request.volume_id s in
      let left = released config world request.volume_id found.0 found.1 in
      let (b, e) = works left.trace in rw named (unmount-ok request b left e)
