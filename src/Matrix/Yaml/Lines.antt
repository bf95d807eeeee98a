-- ===== src/Matrix/Yaml/Lines.antt =====
-- The lines of a config in `write_yaml_config` (scripts/run_matrix.py).
use mathlib.Core.List.Memᴰ
use dm_simulator.Base.{
  ℕ, String, ◌<>◌, ◌≡◌, refl, some, List, ◌++◌, map, Memᴰ, ok, >>=-eq-ok, get_elem?, mem_at,
  contains-all,
}
use dm_simulator.Base.Int.{show_ℕ}
use dm_simulator.Base.Float.{Floats}
use dm_simulator.Base.Dict.{keys, get-contains}
use dm_simulator.Text.{join}
use dm_simulator.Text.Laws.{Within, Within-join, Within-value, Within-label}
use dm_simulator.Matrix.Preset.{MatrixRun}
use dm_simulator.Matrix.Run.{
  node_ids_for_run, memory_base_latency, memory_bandwidth_bytes_per_time, one_way_link_latency,
  cache_capacity_bytes,
}
use dm_simulator.Matrix.Yaml.{
  yaml_policy_name, contention_variants, contention_variant_for_policy, memory_lines,
  workload_lines, policy_lines, yaml_lines, config_text,
}

-- The needle stands in one of the lines.
pub record OnLine (needle : String) (lines : List String) : Type 0 where
  pub line : String
  pub listed : Memᴰ line lines
  pub within : Within needle line

-- At a line that is written as an indentation, a label and a value.
pub value_at :
    (lines : List String) (i : ℕ) (indent label value : String)
    → get_elem? lines i ≡ some ((indent <> label) <> value)
    → OnLine (label <> value) lines
value_at lines i indent label value e = record {
  line = (indent <> label) <> value;
  listed = mem_at lines i e;
  within = Within-value indent label value;
}

pub label_at :
    (lines : List String) (i : ℕ) (before needle after value : String)
    → get_elem? lines i ≡ some (((before <> needle) <> after) <> value)
    → OnLine needle lines
label_at lines i before needle after value e = record {
  line = ((before <> needle) <> after) <> value;
  listed = mem_at lines i e;
  within = Within-label before needle after value;
}

pub OnLine-left :
    {needle : String} {xs : List String} (ys : List String)
    → OnLine needle xs
    → OnLine needle (xs ++ ys)
OnLine-left ys o = record {
  line = o.line;
  listed = Memᴰ.append_left ys o.listed;
  within = o.within;
}

pub OnLine-right :
    {needle : String} (xs : List String) {ys : List String}
    → OnLine needle ys
    → OnLine needle (xs ++ ys)
OnLine-right xs o = record {
  line = o.line;
  listed = Memᴰ.append_right xs o.listed;
  within = o.within;
}

pub OnLine-join :
    {needle : String} (lines : List String) → OnLine needle lines → Within needle (join "\n" lines)
OnLine-join {needle} lines o = Within-join "\n" needle lines o.listed o.within

-- A policy with a variant is a contention-aware one in the config.
pub variant-yaml_policy_name :
    (policy : String) {variant : String}
    → contention_variant_for_policy policy ≡ some variant
    → yaml_policy_name policy ≡ "contention_aware"
unfolding contention_variant_for_policy yaml_policy_name
variant-yaml_policy_name policy e =
    contains-all (λ k. yaml_policy_name k ≡ "contention_aware") (keys contention_variants) policy
      (refl, (refl, (refl, (refl, (refl, (refl, (refl, (refl, tt))))))))
      (get-contains contention_variants policy e)

module _ {F : Type 0} ⦃fl : Floats F⦄ where
  -- What a config is made of.
  pub record Parts (run : MatrixRun F) (text : String) : Type 0 where
    pub ids : List ℕ
    pub base : ℕ
    pub bandwidth : ℕ
    pub link : ℕ
    pub capacity : ℕ
    pub policy : List String
    pub ids_eq : node_ids_for_run run ≡ ok ids
    pub base_eq : memory_base_latency run ≡ ok base
    pub bandwidth_eq : memory_bandwidth_bytes_per_time run ≡ ok bandwidth
    pub link_eq : one_way_link_latency run ≡ ok link
    pub capacity_eq : cache_capacity_bytes run ≡ ok capacity
    pub policy_eq : policy_lines run ≡ ok policy
    pub text_eq :
        text
        ≡ join "\n" (
            memory_lines run base bandwidth link capacity
            ++ (policy ++ workload_lines run (join ", " (map show_ℕ ids))))

  pub config_text-Parts :
      (run : MatrixRun F) (text : String) → config_text run ≡ ok text → Parts run text
  unfolding config_text yaml_lines
  config_text-Parts run text h =
      let (lines, h0, e) = >>=-eq-ok (yaml_lines run) _ h in
      let (ids, ids_eq, h1) = >>=-eq-ok (node_ids_for_run run) _ h0 in
      let (base, base_eq, h2) = >>=-eq-ok (memory_base_latency run) _ h1 in
      let (bandwidth, bandwidth_eq, h3) = >>=-eq-ok (memory_bandwidth_bytes_per_time run) _ h2 in
      let (link, link_eq, h4) = >>=-eq-ok (one_way_link_latency run) _ h3 in
      let (capacity, capacity_eq, h5) = >>=-eq-ok (cache_capacity_bytes run) _ h4 in
      let (policy, policy_eq, h6) = >>=-eq-ok (policy_lines run) _ h5 in
      record {
        ids = ids;
        base = base;
        bandwidth = bandwidth;
        link = link;
        capacity = capacity;
        policy = policy;
        ids_eq = ids_eq;
        base_eq = base_eq;
        bandwidth_eq = bandwidth_eq;
        link_eq = link_eq;
        capacity_eq = capacity_eq;
        policy_eq = policy_eq;
        text_eq =
            let same : memory_lines run base bandwidth link capacity
                  ++ (policy ++ workload_lines run (join ", " (map show_ℕ ids)))
                ≡ lines =
              cc in
            cc;
      }
