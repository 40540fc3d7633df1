-- ===== src/Node/PendingPool/Tests.antt =====
-- A pool with one submission, and the theorems on pools at it.
use chain_registry_core.Prelude.{◌≡◌, refl, false, none, some, List, [], ◌∷◌, Text, txt}
use chain_registry_core.Prelude.Map.{Map, map_values}
use chain_registry_core.Common.Package.{PublishRequest, PackageManifest, canonical}
use chain_registry_core.Node.PendingPool.{PendingEntry, open_pool, restored, insert, get}
use chain_registry_core.Node.PendingPool.Sweep.{times_handed, sweep_all, handed_out_again}
use chain_registry_core.Node.PendingPool.Restart.{
  Call, inserted, removed, swept, apply_all, reopen_restores,
}

abbrev manifest : PackageManifest
manifest = record {
  allowed_network_hosts = [];
  allowed_fs_writes = [];
  spawns_processes = false;
  allowed_process_spawns = [];
  description = none;
}

abbrev submission : Text → Text → PublishRequest
submission name hash = record {
  id = record { ecosystem = txt "npm"; name = name; version = txt "1" };
  content_hash = hash;
  ipfs_cid = txt "Qm";
  publisher_address = txt "0x";
  publisher_pubkey = txt "k";
  signature = txt "s";
  manifest = manifest;
  submitted_at = 0;
  shielded = false;
  key_bundle = none;
  pgp_signature = none;
  pgp_public_key = none;
  threshold = 0;
  publisher_pubkeys = [];
  signatures = [];
}

abbrev calls : List Call
calls =
    inserted 7 (submission (txt "a") (txt "h"))
    ∷ swept 8
    ∷ inserted 9 (submission (txt "b") (txt "h"))
    ∷ removed (txt "npm:a@1")
    ∷ swept 400
    ∷ []

reopen_restores_example :
    (file : Map Text PendingEntry) × (((apply_all calls (open_pool [])).file ≡ some file)
      × ((open_pool file).entries ≡ map_values restored (apply_all calls (open_pool [])).entries))
reopen_restores_example = reopen_restores [] calls

-- After the first sweep at 8, the sweep at 400 hands the package out again, and the one at 100 does
-- not.
handed_out_again_example :
    (times_handed
        (txt "npm:a@1")
        (8 ∷ 100 ∷ 400 ∷ [])
        (insert 7 (submission (txt "a") (txt "h")) (open_pool [])).1
      ≡ 2)
    × ((last : PendingEntry) × (get (txt "npm:a@1") (
            sweep_all
              (8 ∷ 100 ∷ 400 ∷ [])
              (insert 7 (submission (txt "a") (txt "h")) (open_pool [])).1)
          ≡ some last)
        × (last.request ≡ submission (txt "a") (txt "h"))
        × (last.attempt_count ≡ 2))
unfolding insert open_pool canonical
handed_out_again_example =
    handed_out_again 7 8 (100 ∷ 400 ∷ []) (submission (txt "a") (txt "h")) (open_pool []) (tt, tt)
      refl
