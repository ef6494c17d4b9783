-- ===== src/Deploy/Convergence.antt =====
-- What `Sync` leaves behind, however it ends.
use poor_man_stack.Base.{ℕ, Text, text_eq, false, ◌≡◌, ◌⊎◌, Result, ok}
use poor_man_stack.Store.Stacks.{StackRevision}
use poor_man_stack.Deploy.World.{Deployed, Platform, Compiler, World, Fault}
use poor_man_stack.Deploy.Pipeline.{retranslate, sync_payload}
use poor_man_stack.Deploy.Atomicity.{IsDeployed}

module _ (platform : Platform) (compiler : Compiler) (now : ℕ) (name : Text)
    (w : World platform) where
  -- The latest revision renders to what its hash was taken of, and the answer says so.
  pub record IsCurrent (latest : StackRevision) (out : World platform × Result Fault Deployed)
      : Type 0 where
    pub rendered : Text
    pub renders : retranslate platform compiler now name latest.source_yaml w ≡ ok rendered
    pub hashed : compiler.sha rendered ≡ latest.rendered_hash
    pub answer : out ≡ (
      w,
      ok (record {
        stack_name = name;
        revision = latest.revision;
        rendered_yaml = rendered;
        changed = false;
      }),
    )

  -- Deployed again from the stored source, or left as it is.
  pub IsSynced : StackRevision → World platform × Result Fault Deployed → Type 0
  IsSynced latest out =
      IsCurrent latest out
      ⊎ IsDeployed platform compiler now
          (sync_payload platform compiler now name latest.source_yaml) w out.0 out.1
