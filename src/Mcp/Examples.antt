-- ===== src/Mcp/Examples.antt =====
-- A concrete block and home: tests of apps/shell/src/main/mcp-home.ts, and each theorem at them.
use deepseek_harness.Common.{
  Text, text_eq, false, none, some, List, [], ◌∷◌, ◌++◌, ◌≡◌, inl, refl, nat_eq,
}
use deepseek_harness.Supervisor.Output.{units}
use deepseek_harness.Mcp.Patch.{
  patch_begin, patch_end, cut_at, Block, find_block, merge_managed_patch, skip_line_end,
}
use deepseek_harness.Mcp.Merge.{IsBlock}
use deepseek_harness.Mcp.Rows.{IsFirst, merge_keeps_rows}
use deepseek_harness.Mcp.Twice.{merge-merge_managed_patch, stray_begin_loses_rows}
use deepseek_harness.Mcp.Catalogue.{McpHost, EmbeddedMcpOptions, absent, serena}
use deepseek_harness.Mcp.Home.{Home, set_embedded_mcp_enabled}
use deepseek_harness.Mcp.Flags.{IsToggled}
use deepseek_harness.Mcp.Toggle.{set_embedded_mcp_enabled-IsToggled}

abbrev block : Text
block = patch_begin ++ (units "x" ++ (patch_end ++ (10 ∷ [])))

block-IsBlock : IsBlock block
unfolding cut_at
block-IsBlock = record {
  inner = units "x";
  shape = refl;
  plain = refl;
  inner_end = refl;
  only_end = refl;
}

abbrev old : Block
old = record { before = units "a"; inner = units "y"; after_end = 10 ∷ units "b" }

abbrev with_block : Text
with_block = units "a" ++ (patch_begin ++ (units "y" ++ (patch_end ++ (10 ∷ units "b"))))

found_old : find_block with_block ≡ some old
unfolding find_block cut_at
found_old = refl

merge_keeps_rows_example :
    (b : Block) × (with_block
      ≡ b.before ++ (patch_begin ++ (b.inner ++ (patch_end ++ b.after_end))))
    × IsFirst with_block b
    × (merge_managed_patch with_block block ≡ b.before ++ (block ++ skip_line_end b.after_end))
merge_keeps_rows_example =
    merge_keeps_rows with_block block (units "a") (units "y") (10 ∷ units "b") block-IsBlock refl

merge-merge_managed_patch_example :
    merge_managed_patch (merge_managed_patch with_block block) block
    ≡ merge_managed_patch with_block block
merge-merge_managed_patch_example =
    merge-merge_managed_patch with_block block block-IsBlock (inl (old, found_old))

abbrev stray : Text
stray = units "a" ++ (patch_begin ++ units "b")

stray_cut : cut_at patch_begin stray ≡ some (units "a", units "b")
unfolding cut_at
stray_cut = refl

stray_open : cut_at patch_end (units "b") ≡ none
unfolding cut_at
stray_open = refl

stray_begin_loses_rows_example :
    (merge_managed_patch stray block
      ≡ units "a" ++ (patch_begin ++ (units "b" ++ (10 ∷ 10 ∷ block))))
    × (merge_managed_patch (merge_managed_patch stray block) block ≡ units "a" ++ block)
stray_begin_loses_rows_example =
    stray_begin_loses_rows (units "a") (units "b") block block-IsBlock stray_cut stray_open refl

abbrev join_all : List Text → Text
join_all [] = []
join_all (part ∷ parts) = part ++ (47 ∷ join_all parts)

abbrev host : McpHost
host = record {
  dirname = units "d";
  join = join_all;
  exists_sync = λ path. false;
  stringify = λ text. 34 ∷ text ++ (34 ∷ []);
}

abbrev bare : EmbeddedMcpOptions
bare = record { uvx_command = none; serena_launcher_path = none; server_overrides = [] }

abbrev launched : EmbeddedMcpOptions
launched = record bare { serena_launcher_path = some (units "l") }

abbrev first_home : Home
first_home = record { config = absent; patch = none }

set_embedded_mcp_enabled-IsToggled_example :
    IsToggled host bare launched serena false first_home
      (set_embedded_mcp_enabled host bare serena false first_home)
set_embedded_mcp_enabled-IsToggled_example =
    set_embedded_mcp_enabled-IsToggled host bare launched serena false first_home
