-- ===== src/Cs2/Request.antt =====
-- The restore of what a request of crates/frametime-domain/src/cs2_config.rs names.
use mathlib.Core.Path.{subst}
use cs2_opt.Prelude.{
  ℕ, suc, ◌<◌, ◌≡◌, ◌≢◌, sym, ap, refl, Bool, true, false, List, [], ◌∷◌, Result, ok, err, none,
  All, map, arith, ok-injective,
}
use cs2_opt.Prelude.Text.{Text}
use cs2_opt.Cs2.Targets.{
  OptionalCfgAsset, Cs2ConfigTarget, optimization, autoexec, asset_rank, insert_asset,
  collected_assets, from_optional_asset, optional_asset, target_file_name,
}
use cs2_opt.Cs2.Names.{target_file_name-injective, optional_asset-from_optional_asset}
use cs2_opt.Cs2.Files.{FilePath, Cs2ConfigFs, Cs2ConfigError, joined, pure, ◌>>◌}
use cs2_opt.Cs2.Apart.{joined-injective}
use cs2_opt.Cs2.Controller.{Cs2Install, Cs2ConfigRequest, ensure_safe_targets}
use cs2_opt.Cs2.Restore.{
  request_new, for_request, bound_targets, backup_targets, restore, restore_targets, Snapshot,
}
use cs2_opt.Cs2.Contract.{
  Disk, Contract, Post, bind-Contract, then-Contract, assume-Contract, on_success,
}
use cs2_opt.Cs2.Holds.{Any, whatever}
use cs2_opt.Cs2.Safety.{cfg_directory}
use cs2_opt.Cs2.Written.{paths-Any}
use cs2_opt.Cs2.Restored.{AreDistinct, AreRestored, restore_targets-restores}

-- Assets in strictly rising order, the first at a rank or above.
abbrev RisesFrom : ℕ → List OptionalCfgAsset → Type 0
RisesFrom n [] = Unit {0}
RisesFrom n (a ∷ as_) = (n < suc (asset_rank a)) × RisesFrom (suc (asset_rank a)) as_

insert-RisesFrom :
    (n : ℕ) (a : OptionalCfgAsset) (as_ : List OptionalCfgAsset)
    → n < suc (asset_rank a)
    → RisesFrom n as_
    → RisesFrom n (insert_asset a as_)
unfolding insert_asset
insert-RisesFrom n a [] h r = (h, tt)
insert-RisesFrom n a (b ∷ bs) h r = ground (arith, insert-RisesFrom (suc (asset_rank b)) a bs)

collected_assets-RisesFrom : (as_ : List OptionalCfgAsset) → RisesFrom 0 (collected_assets as_)
unfolding collected_assets
collected_assets-RisesFrom [] = tt
collected_assets-RisesFrom (a ∷ as_) =
    insert-RisesFrom 0 a (collected_assets as_) (omega arith) (collected_assets-RisesFrom as_)

abbrev path_of : FilePath → Cs2ConfigTarget → FilePath
path_of d t = joined d (target_file_name t)

path_of-injective : (d : FilePath) (t u : Cs2ConfigTarget) → path_of d t ≡ path_of d u → t ≡ u
path_of-injective d t u e =
    target_file_name-injective t u (joined-injective d (target_file_name t) (target_file_name u) e)

from_optional_asset-injective :
    (a b : OptionalCfgAsset) → from_optional_asset a ≡ from_optional_asset b → a ≡ b
from_optional_asset-injective a b e = ground (
  arith,
  optional_asset-from_optional_asset a,
  optional_asset-from_optional_asset b,
  ap optional_asset e,
)

module _ (d : FilePath) where
  abbrev Away : Cs2ConfigTarget → List OptionalCfgAsset → Type 0
  Away t as_ =
      All (λ (u : Cs2ConfigTarget × FilePath). u.1 ≢ path_of d t)
        (bound_targets d (map from_optional_asset as_))

  asset-Away :
      (a : OptionalCfgAsset) (n : ℕ) (as_ : List OptionalCfgAsset)
      → asset_rank a < n
      → RisesFrom n as_
      → Away (from_optional_asset a) as_
  asset-Away a n [] h r = tt
  asset-Away a n (b ∷ bs) h (low, r) = (
    λ e.
        let same : b ≡ a =
          from_optional_asset-injective b a
            (path_of-injective d (from_optional_asset b) (from_optional_asset a) e) in
        omega (arith, ap asset_rank same),
    asset-Away a (suc (asset_rank b)) bs (omega arith) r,
  )

  -- The two files that are no assets.
  fixed-Away :
      (t : Cs2ConfigTarget) (as_ : List OptionalCfgAsset) → optional_asset t ≡ none → Away t as_
  fixed-Away t [] h = tt
  fixed-Away t (b ∷ bs) h = (
    λ e.
        let same : from_optional_asset b ≡ t = path_of-injective d (from_optional_asset b) t e in
        ground (arith, ap optional_asset same, optional_asset-from_optional_asset b),
    fixed-Away t bs h,
  )

  assets-AreDistinct :
      (n : ℕ) (as_ : List OptionalCfgAsset)
      → RisesFrom n as_
      → AreDistinct (bound_targets d (map from_optional_asset as_))
  assets-AreDistinct n [] r = tt
  assets-AreDistinct n (a ∷ as_) (low, r) = (
    asset-Away a (suc (asset_rank a)) as_ (omega arith) r,
    assets-AreDistinct (suc (asset_rank a)) as_ r,
  )

  for_request-AreDistinct :
      (request : Cs2ConfigRequest) (bootstrap : Bool)
      → RisesFrom 0 request.optional_assets
      → AreDistinct
          (bound_targets d (for_request (record request { bootstrap_autoexec = bootstrap })))
  unfolding for_request optional_asset
  for_request-AreDistinct request false r = (
    fixed-Away optimization request.optional_assets refl,
    assets-AreDistinct 0 request.optional_assets r,
  )
  for_request-AreDistinct request true r = (
    (
      λ e. ground (arith, path_of-injective d autoexec optimization e),
      fixed-Away optimization request.optional_assets refl,
    ),
    (
      fixed-Away autoexec request.optional_assets refl,
      assets-AreDistinct 0 request.optional_assets r,
    ),
  )

request_new-RisesFrom :
    (now : Text) (assets : List OptionalCfgAsset) (request : Cs2ConfigRequest)
    → request_new now assets ≡ ok request
    → RisesFrom 0 request.optional_assets
unfolding request_new
request_new-RisesFrom now assets request h =
    subst (λ (r : Cs2ConfigRequest). RisesFrom 0 r.optional_assets)
      (ok-injective {E = Cs2ConfigError} made request (ground arith))
      (collected_assets-RisesFrom assets)
  where
    made : Cs2ConfigRequest
    made = record {
      generated_at = now;
      optional_assets = collected_assets assets;
      bootstrap_autoexec = false;
    }

module _ {S : Type 0} {files : Cs2ConfigFs S} (disk : Disk files) (install : Cs2Install) where
  abbrev targets_of : Cs2ConfigRequest → List (Cs2ConfigTarget × FilePath)
  targets_of request = bound_targets (cfg_directory install) (for_request request)

  backup_targets-Any :
      (request : Cs2ConfigRequest)
      → Contract
          (Any disk)
          (Any disk)
          (backup_targets install request)
          (λ targets s. Any disk s × (targets ≡ targets_of request))
  unfolding backup_targets
  backup_targets-Any request =
      let d : FilePath = cfg_directory install in
      let bound : FilePath → List (Cs2ConfigTarget × FilePath) =
        λ p. bound_targets p (for_request request) in
      bind-Contract (paths-Any disk install) (λ p. assume-Contract (λ known.
        subst
          (λ q.
            Contract (Any disk) (Any disk)
              (ensure_safe_targets q.cfg_directory (map (λ t. t.1) (bound q.cfg_directory))
                >> pure (bound q.cfg_directory))
              (λ targets s. Any disk s × (targets ≡ targets_of request)))
          (sym known)
          (then-Contract (whatever disk (ensure_safe_targets d (map (λ t. t.1) (bound d))))
            (record { run = λ s _. (tt, refl) }))))

  restore_targets-Contract :
      (targets : List (Cs2ConfigTarget × FilePath)) (snapshots : List Snapshot)
      → AreDistinct targets
      → Contract
          (Any disk)
          (Any disk)
          (restore_targets files targets snapshots)
          (λ _ s. AreRestored disk s targets snapshots)
  restore_targets-Contract targets snapshots apart = record {
    run = λ s _.
        go (restore_targets files targets snapshots s)
          (restore_targets-restores disk targets snapshots s apart);
  }
    where
      go :
          (o : Result Cs2ConfigError (Unit {0}) × S)
          → (o.0 ≡ ok tt → AreRestored disk o.1 targets snapshots)
          → Post (Any disk) (λ _ s. AreRestored disk s targets snapshots) o
      go (ok u, s) h = h refl
      go (err e, s) h = tt

  restore-Contract :
      (request : Cs2ConfigRequest) (snapshots : List Snapshot)
      → AreDistinct (targets_of request)
      → Contract
          (Any disk)
          (Any disk)
          (restore files install request snapshots)
          (λ _ s. AreRestored disk s (targets_of request) snapshots)
  unfolding restore
  restore-Contract request snapshots apart = bind-Contract (backup_targets-Any request) (λ targets.
      assume-Contract (λ known.
        subst
          (λ ts.
            Contract (Any disk) (Any disk) (restore_targets files ts snapshots)
              (λ _ s. AreRestored disk s (targets_of request) snapshots))
          (sym known) (restore_targets-Contract (targets_of request) snapshots apart)))

-- When the restore of a request that was made from any list of assets, with `autoexec.cfg` or
-- without it, ends well, the snapshots are of exactly the files that the request names, in their
-- order, and each of these files of the installation is as its snapshot has it.
pub restore-request_new :
    {S : Type 0} {files : Cs2ConfigFs S} (disk : Disk files) (install : Cs2Install) (now : Text)
    (assets : List OptionalCfgAsset) (bootstrap : Bool) (made request : Cs2ConfigRequest)
    (snapshots : List Snapshot) (s : S)
    → request_new now assets ≡ ok made
    → request ≡ record made { bootstrap_autoexec = bootstrap }
    → (restore files install request snapshots s).0 ≡ ok tt
    → AreRestored disk
        (restore files install request snapshots s).1
        (bound_targets (cfg_directory install) (for_request request))
        snapshots
restore-request_new {files = files} disk install now assets bootstrap made request snapshots s new e
      h =
    on_success
      (restore-Contract disk install request snapshots (
        subst (λ r. AreDistinct (targets_of disk install r)) (sym e)
          (for_request-AreDistinct (cfg_directory install) made bootstrap
            (request_new-RisesFrom now assets made new))))
      s tt tt h
