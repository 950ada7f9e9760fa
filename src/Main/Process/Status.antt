-- ===== src/Main/Process/Status.antt =====
-- src/file_monitor/main.py: what the exit status says, and what the process has done.
use file_monitor.Prelude.{
  ℕ, ◌≡◌, ◌↔◌, refl, subst, true, Option, none, some, List, [], ◌∷◌, arith, null, Result,
  Result-cases, Bool-cases, ok, err, err-ne-ok, Error, ◌⊎◌, inl, inr,
}
use file_monitor.Python.Text.{Bytes}
use file_monitor.Python.Decimal.{Unicode}
use file_monitor.Adapters.Blake3.{Blake3}
use file_monitor.Ipc.Handshake.{compute_proto_hash}
use file_monitor.Ipc.Handshake
use file_monitor.Config.{AppConfig}
use file_monitor.Config.Valid
use file_monitor.Config.Valid.{validate_config_iff}
use file_monitor.Config.Load.Loaded.{load_config_iff}
use file_monitor.Main.Process.{
  World, Action, runs_tasks, shuts_down_supervisor, unlinks_socket, build_sender_specs, run_tasks,
  run_watching, run_with, run_in, run, contract_of, is_config_error, main_with, loaded, main,
}

-- A run that went well from the configuration to the end of its tasks.
pub record IsClean (blake3 : Blake3) (world : World) (config : AppConfig) : Type 0 where
  pub proto_dir : List Handshake.Entry
  pub expected_proto_hash : Bytes
  pub is_contract : contract_of world ≡ some proto_dir
  pub is_hash : compute_proto_hash blake3 proto_dir ≡ ok expected_proto_hash
  pub watches : world.watch config.paths.watch_path ≡ ok tt
  pub no_error : world.tasks expected_proto_hash config ≡ []
  pub unlinks : world.unlink config.paths.socket_path ≡ ok tt

-- what a run without exit status 78 does
pub record IsOrderly (blake3 : Blake3) (world : World) (config : AppConfig) (actions : List Action)
    : Type 0 where
  pub proto_dir : List Handshake.Entry
  pub expected_proto_hash : Bytes
  pub is_contract : contract_of world ≡ some proto_dir
  pub is_hash : compute_proto_hash blake3 proto_dir ≡ ok expected_proto_hash
  pub are_actions :
      actions
      ≡ runs_tasks expected_proto_hash (build_sender_specs config)
        ∷ shuts_down_supervisor
        ∷ unlinks_socket config.paths.socket_path
        ∷ []

module _ (blake3 : Blake3) (world : World) (config : AppConfig) where
  null-eq : {A : Type 0} (xs : List A) → null xs ≡ true → xs ≡ []
  null-eq [] h = refl
  null-eq (x ∷ xs) h = absurd (cc)

  run_tasks-status :
      (hash : Bytes) (status : ℕ)
      → (run_tasks world config hash).0 ≡ ok status
      → (world.unlink config.paths.socket_path ≡ ok tt)
        × (((status ≡ 0) × (world.tasks hash config ≡ [])) ⊎ (status ≡ 1))
  run_tasks-status hash status done = ground (arith, null-eq (world.tasks hash config))

  -- A configuration that was loaded leads to status 0 or 1, or to an exception.
  run_watching-status :
      (hash : Bytes) (status : ℕ) (w : Result (Unit {0}))
      → (run_watching world config hash w).0 ≡ ok status
      → (status ≡ 0) ⊎ (status ≡ 1)
  run_watching-status hash status (err e) done = absurd (cc)
  run_watching-status hash status (ok u) done = elim (run_tasks-status hash status done).1 [
    | inl (clean, no_error) ↦ inl clean
    | inr failed ↦ inr failed
  ]

  run_in-status :
      (o : Option (List Handshake.Entry)) (status : ℕ)
      → (run_in blake3 world config o).0 ≡ ok status
      → (status ≡ 0) ⊎ (status ≡ 1)
  run_in-status none status done = inr (ground arith)
  run_in-status (some proto_dir) status done =
      elim (Result-cases (compute_proto_hash blake3 proto_dir)) [
        | inl (hash, hashed) ↦
            run_watching-status hash status (world.watch config.paths.watch_path)
              (subst (λ r. (run_with world config r).0 ≡ ok status) hashed done)
        | inr (e, failed) ↦
            absurd (err-ne-ok (subst (λ r. (run_with world config r).0 ≡ ok status) failed done))
      ]

  run_watching-IsClean :
      (proto_dir : List Handshake.Entry) (hash : Bytes) (w : Result (Unit {0}))
      → contract_of world ≡ some proto_dir
      → compute_proto_hash blake3 proto_dir ≡ ok hash
      → world.watch config.paths.watch_path ≡ w
      → (run_watching world config hash w).0 ≡ ok 0
      → IsClean blake3 world config
  run_watching-IsClean proto_dir hash (err e) found hashed watches done = absurd (cc)
  run_watching-IsClean proto_dir hash (ok u) found hashed watches done =
      let (unlinks, tasks) = run_tasks-status hash 0 done in
      record {
        proto_dir = proto_dir;
        expected_proto_hash = hash;
        is_contract = found;
        is_hash = hashed;
        watches = watches;
        no_error = elim tasks [
          | inl (clean, no_error) ↦ no_error
          | inr failed ↦ absurd (ground arith)
        ];
        unlinks = unlinks;
      }

  run_in-IsClean :
      (o : Option (List Handshake.Entry))
      → contract_of world ≡ o
      → (run_in blake3 world config o).0 ≡ ok 0
      → IsClean blake3 world config
  run_in-IsClean none found done = absurd (ground arith)
  run_in-IsClean (some proto_dir) found done =
      elim (Result-cases (compute_proto_hash blake3 proto_dir)) [
        | inl (hash, hashed) ↦
            run_watching-IsClean proto_dir hash (world.watch config.paths.watch_path) found hashed
              refl (subst (λ r. (run_with world config r).0 ≡ ok 0) hashed done)
        | inr (e, failed) ↦
            absurd (err-ne-ok (subst (λ r. (run_with world config r).0 ≡ ok 0) failed done))
      ]

  clean-run : IsClean blake3 world config → (run blake3 world config).0 ≡ ok 0
  unfolding run
  clean-run c = rw (c.is_contract, c.is_hash, c.watches, c.unlinks, c.no_error) refl

  run-status : (status : ℕ) → (run blake3 world config).0 ≡ ok status → (status ≡ 0) ⊎ (status ≡ 1)
  unfolding run
  run-status status done = run_in-status (contract_of world) status done

module _ (blake3 : Blake3) (world : World) where
  -- A status comes from `run`, or is that of a configuration error.
  main_with-status :
      (r : Result AppConfig) (status : ℕ)
      → (main_with blake3 world r).0 ≡ ok status
      → ((config : AppConfig) × (r ≡ ok config) × ((run blake3 world config).0 ≡ ok status))
        ⊎ ((e : Error) × (r ≡ err e) × (is_config_error e ≡ true) × (status ≡ 78))
  main_with-status (ok config) status done = inl (config, refl, done)
  main_with-status (err e) status done = elim (Bool-cases (is_config_error e)) [
    | inl caught ↦ inr (e, refl, caught, ground arith)
    | inr escapes ↦ absurd (ground arith)
  ]

  -- The actions of a run that came as far as its tasks, or none.
  run_in-actions :
      (config : AppConfig) (o : Option (List Handshake.Entry))
      → contract_of world ≡ o
      → ((run_in blake3 world config o).1 ≡ [])
        ⊎ IsOrderly blake3 world config (run_in blake3 world config o).1
  run_in-actions config none found = inl refl
  run_in-actions config (some proto_dir) found =
      elim (Result-cases (compute_proto_hash blake3 proto_dir)) [
        | inr (e, failed) ↦ inl (rw failed refl)
        | inl (hash, hashed) ↦ elim (Result-cases (world.watch config.paths.watch_path)) [
          | inr (e, failed) ↦ inl (rw (hashed, failed) refl)
          | inl (u, watches) ↦ inr (record {
            proto_dir = proto_dir;
            expected_proto_hash = hash;
            is_contract = found;
            is_hash = hashed;
            are_actions = rw (hashed, watches) refl;
          })
        ]
      ]

-- The process ends with status 0 exactly if a configuration was loaded, the directory of the contract
-- is there and was hashed, the watch was set up, all tasks ended without an exception, and the socket
-- file could be removed; with status 78 exactly if loading the configuration raised a ValueError or an
-- OSError; and any other status is 1.
pub main_iff :
    (unicode : Unicode) (blake3 : Blake3) (world : World)
    → (((main unicode blake3 world).0 ≡ ok 0)
        ↔ ((config : AppConfig) × (loaded unicode world ≡ ok config) × IsClean blake3 world config))
      × (((main unicode blake3 world).0 ≡ ok 78)
          ↔ ((e : Error) × (loaded unicode world ≡ err e) × (is_config_error e ≡ true)))
      × ((status : ℕ)
          → (main unicode blake3 world).0 ≡ ok status
          → (status ≡ 0) ⊎ (status ≡ 1) ⊎ (status ≡ 78))
unfolding main
main_iff unicode blake3 world = (
  (
    λ done. elim (main_with-status blake3 world (loaded unicode world) 0 done) [
      | inl (config, is_config, clean) ↦ (
        config,
        is_config,
        unfold run in run_in-IsClean blake3 world config (contract_of world) refl clean,
      )
      | inr (e, failed, caught, is_status) ↦ absurd (ground arith)
    ],
    λ (config, is_config, clean). rw is_config (clean-run blake3 world config clean),
  ),
  (
    λ done. elim (main_with-status blake3 world (loaded unicode world) 78 done) [
      | inl (config, is_config, ran) ↦ elim (run-status blake3 world config 78 ran) [
        | inl impossible ↦ absurd (ground arith)
        | inr impossible ↦ absurd (ground arith)
      ]
      | inr (e, failed, caught, is_status) ↦ (e, failed, caught)
    ],
    λ (e, failed, caught). rw (failed, caught) refl,
  ),
  λ status done. elim (main_with-status blake3 world (loaded unicode world) status done) [
    | inl (config, is_config, ran) ↦ elim (run-status blake3 world config status ran) [
      | inl is_zero ↦ inl is_zero
      | inr is_one ↦ inr (inl is_one)
    ]
    | inr (e, failed, caught, is_status) ↦ inr (inr is_status)
  ],
)

-- Either the process starts nothing, or it runs its tasks once, for a configuration with all the bounds
-- of validate_config and with the hash of the contract that it found, and behind them shuts the
-- supervisor down and then removes the socket file, however the tasks ended.
pub main-IsOrderly :
    (unicode : Unicode) (blake3 : Blake3) (world : World)
    → ((main unicode blake3 world).1 ≡ [])
      ⊎ ((config : AppConfig) × (loaded unicode world ≡ ok config)
          × Valid.IsValid config
          × IsOrderly blake3 world config (main unicode blake3 world).1)
unfolding main
main-IsOrderly unicode blake3 world = elim (Result-cases (loaded unicode world)) [
  | inr (e, failed) ↦ inl (rw failed (ground arith))
  | inl (config, is_config) ↦
      let (document, is_read, tables, is_specified, valid) =
        (load_config_iff unicode _ _ _ world.entry config).0 is_config in
      let bounds = ((validate_config_iff (world.entry config.paths.watch_path) config).0 valid).1 in
      elim (run_in-actions blake3 world config (contract_of world) refl) [
        | inl nothing ↦ inl (rw is_config (unfold run in nothing))
        | inr orderly ↦ inr (config, is_config, bounds, rw is_config (unfold run in orderly))
      ]
]
