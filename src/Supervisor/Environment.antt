-- ===== src/Supervisor/Environment.antt =====
-- apps/shell/src/main/harness-supervisor.ts: where a variable of the child's environment comes from.
use mathlib.Core.List.{Memᴰ}
use deepseek_harness.Common.{
  ◌≡◌, ◌⊎◌, inl, inr, sym, ◌∙◌, some, List, [], ◌∷◌, String, ◌==◌, string_eq, Bool-cases,
  Option-cases, if◌then◌else◌,
}
use deepseek_harness.Common.JsMap.{JsMap, get, set, get-set}
use deepseek_harness.Supervisor.State.{HarnessSupervisorConfig}
use deepseek_harness.Supervisor.Env.{
  safe_env_keys, keep_safe, copy_safe, spread, lb_env, bridge_env, child_env,
}

get-set_cases :
    (k j v u : String) (m : JsMap String String)
    → get j (set k v m) ≡ some u
    → ((k ≡ j) × (v ≡ u)) ⊎ (get j m ≡ some u)
get-set_cases k j v u m h =
    let e : get j (set k v m) ≡ (if k == j then some v else get j m) = get-set k j v m in
    elim (Bool-cases (k == j)) [
      | inl same ↦ inl ((string_eq.decides k j).0 same, cc (rw same at e, h))
      | inr other ↦ inr (sym (rw other at e) ∙ h)
    ]

-- A variable of a spread is one of its parts.
spread_cases :
    (env more : JsMap String String) (k v : String)
    → get k (spread env more) ≡ some v
    → (get k env ≡ some v) ⊎ Memᴰ (k, v) more
spread_cases env [] k v h = inl h
spread_cases env ((j, u) ∷ more) k v h = elim (spread_cases (set j u env) more k v h) [
  | inr listed ↦ inr (Memᴰ.tail listed)
  | inl early ↦ elim (get-set_cases j k u v env early) [
    | inl (e, f) ↦ inr (Memᴰ.head (cc (e, f)))
    | inr old ↦ inl old
  ]
]

-- A copied variable is a safe one of the process, with its value there.
abbrev pub IsCopied : JsMap String String → List String → String → String → Type 0
IsCopied process_env keys k v = Memᴰ k keys × (get k process_env ≡ some v)

copy_safe_cases :
    (process_env : JsMap String String) (keys : List String) (env : JsMap String String)
    (k v : String)
    → get k (copy_safe process_env keys env) ≡ some v
    → (get k env ≡ some v) ⊎ IsCopied process_env keys k v
copy_safe_cases process_env [] env k v h = inl h
copy_safe_cases process_env (key ∷ keys) env k v h =
    elim (copy_safe_cases process_env keys (keep_safe process_env key (get key process_env) env) k v
      h) [
        | inr (listed, found) ↦ inr (Memᴰ.tail listed, found)
        | inl early ↦ elim (Option-cases (get key process_env)) [
          | inl missing ↦ inl (rw missing at early)
          | inr (val, found) ↦ elim (get-set_cases key k val v env (rw found at early)) [
            | inl (e, f) ↦ inr (Memᴰ.head (sym e), cc (e, f, found))
            | inr old ↦ inl old
          ]
        ]
      ]

-- A variable of the child's environment comes from the environment of the shell only if its key is on
-- the list of safe keys; every other one is `DSH_HOME` or a variable that the configuration gives.
pub child_env_sources :
    (process_env : JsMap String String) (cfg : HarnessSupervisorConfig) (k v : String)
    → get k (child_env process_env cfg) ≡ some v
    → IsCopied process_env safe_env_keys k v
      ⊎ (((k ≡ "DSH_HOME") × (v ≡ cfg.home_dir))
          ⊎ (Memᴰ (k, v) cfg.node_env
              ⊎ (Memᴰ (k, v) (lb_env cfg.lb_url)
                  ⊎ (Memᴰ (k, v) (bridge_env cfg.browser_bridge) ⊎ Memᴰ (k, v) cfg.extra_env))))
unfolding child_env
child_env_sources process_env cfg k v h =
    let safe = copy_safe process_env safe_env_keys [] in
    let noded = spread safe cfg.node_env in
    let own = set "DSH_HOME" cfg.home_dir noded in
    let with_lb = spread own (lb_env cfg.lb_url) in
    let with_bridge = spread with_lb (bridge_env cfg.browser_bridge) in
    elim (spread_cases with_bridge cfg.extra_env k v h) [
      | inr m ↦ inr (inr (inr (inr (inr m))))
      | inl h ↦ elim (spread_cases with_lb (bridge_env cfg.browser_bridge) k v h) [
        | inr m ↦ inr (inr (inr (inr (inl m))))
        | inl h ↦ elim (spread_cases own (lb_env cfg.lb_url) k v h) [
          | inr m ↦ inr (inr (inr (inl m)))
          | inl h ↦ elim (get-set_cases "DSH_HOME" k cfg.home_dir v noded h) [
            | inl (e, f) ↦ inr (inl (sym e, sym f))
            | inr h ↦ elim (spread_cases safe cfg.node_env k v h) [
              | inr m ↦ inr (inr (inl m))
              | inl h ↦ elim (copy_safe_cases process_env safe_env_keys [] k v h) [
                | inl nothing ↦ absurd (cc nothing)
                | inr copied ↦ inl copied
              ]
            ]
          ]
        ]
      ]
    ]
