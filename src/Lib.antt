-- ===== src/Lib.antt =====
-- Verification of the Python programs of this repository: the design scripts below .agents/skills.
-- A script is modelled by definitions that are translated from its source, function by function, and
-- keep its names; the proofs stand in child modules that are named for what they prove, the runs on
-- concrete inputs in the modules called Tests.
--
-- The programs and the files that model them:
--
-- DecisionRules  .agents/skills/ui-ux-pro-max/scripts/reasoning_contract.py
--   Grammar has TOKEN_RE, ACTION_PREFIXES and `_validate_action`; Parse has `parse_decision_rules` and
--   `_object_without_duplicates`; Signals and Apply have CONDITION_PATTERNS and `apply_decision_rules`,
--   whose result dict is the record Outcome. Json has the tree that json.loads reads and the errors.
--
-- Catalog  .agents/skills/ui-ux-pro-max/scripts/core.py
--   Normalize, Tokens: `_normalize` and `BM25.tokenize`. Bm25: the class BM25, its fields as the record
--   Index. Config: the tables of files and columns. Domain: `detect_domain` and its keywords.
--   Identity: `_row_identities`, `_style_identity`, `_exact_row_identity` and
--   `_style_search_destination`. Rewrite: `_rewrite_query_for_domain`. Detailed: the thresholds,
--   `_query_coverage` and `_search_csv_detailed`. Similarity, Suggest: the ratio of difflib,
--   `_suggest_terms` and `_suggest_identities`. Search: `search`, which first looks for a row that the
--   query names, then follows its redirect, then searches the file of the domain. Stack: `search_stack`,
--   with the versions that a query asks for (Versions, Legacy) and the rows of one generation (Filter).
--   Cache: `_load_csv_snapshot` against a disk that others write, and `_get_bm25`.
--
-- SlideSearch  .agents/skills/design-system/scripts/slide_search_core.py
--   Index: its own class BM25. Search: `detect_domain`, `search` and `search_all`. Decisions: the
--   decision tables. Deck: `should_use_full_bleed` and `calculate_pattern_break`. Context:
--   `search_with_context`.
--
-- IdentitySearch  .agents/skills/design/scripts/cip/core.py
--   `detect_domain`, `search`, `search_all` and `get_cip_brief`; the class BM25 and `_search_csv` are the
--   same text as in slide_search_core.py, and SlideSearch has their models. Brief: where the parts of
--   a brief come from.
--
-- DesignSystem  .agents/skills/ui-ux-pro-max/scripts/design_system.py
--   Dials: DIAL_TIERS and `_resolve_dial`. Colors: the luminance and contrast of colours and
--   `_derive_dark_palette`. Mode: the mode of a query and a style, the palette and the anti-patterns
--   for it. Resolve: the lookups by name and the loop of `_resolve_style`. Reasoning: the rule of a
--   category, which DecisionRules reads, and the searches, which Catalog does. Match:
--   `_select_best_match`. Generator and Recommendation: the class DesignSystemGenerator, `generate` in
--   two steps, what is chosen (the record Choice) and what is shown of it (Recommendation). Persist:
--   `safe_slug`, `_write_persisted_file` on a disk whose calls may fail, the same calls of several
--   runs at once (Race), and `persist_design_system` (Report). The fuel of `_resolve_style` is two
--   more than the entries of the lookup, since each round sees one more of its styles.
--
-- Validation  .agents/skills/ui-ux-pro-max/scripts/validate_data.py
--   Styles: the loop of `_check_style_contract` over the styles, what it gathers (the record Gathered)
--   and the problems of a row. References: the parents, the references of products and rules, and the
--   list of the problems of all three. Reasoning: `_check_reasoning_contract`, whose messages are the
--   values of Finding; `float` on texts is a parameter. Colors: `_check_color_contract` with its own
--   `_relative_luminance` and `contrast_ratio`. The fuel of a chain of parents is two more than the
--   number of styles, since each round sees one more of them.
--
-- Styling  .agents/skills/ui-styling/scripts
--   Shadcn: the class ShadcnInstaller of shadcn_add.py; an operation returns its message and the
--   command that it ran. Tailwind: the class TailwindConfigGenerator of tailwind_config_gen.py, its
--   fields as the record Generator; its children have the text of the configuration (Printing) and
--   the part of `main` that builds it (CommandLine).
--
-- Shared modules: Prelude passes on the names of the libraries, with the Boolean tests on numbers, the
-- whole numbers with a sign (a dial, the number of results of the slide and identity searches, whose
-- slice counts a negative number from the end) and the predicates on lists and options. Text, Text.Cut and Text.Phrase model str and its methods, Regex
-- the expressions that whole texts are matched with, Dict the dict in its order of insertion, Sort
-- the stable `sorted`, Floats the operations on floats.
--
-- Conventions. A text is a list of code points; letters, digits and spaces are those of ASCII, so
-- casefold is lower. A float operation is an operation of the record Floats, a parameter; theorems that
-- need an order of floats, or what floats find of two colours, say so. The tree that json.loads reads,
-- the files of a project, the run of a command, the calls of the system that fail and the names of
-- temporary files are parameters. A CSV file is the list of its rows, each with its cells in the order of the
-- columns. The fuel of Similarity is the length of the first text, which each step shortens; the
-- attempts of the cache are those of the source.
--
-- Not modelled: the command lines and output of the other scripts, the text formats of
-- design_system.py, whose results are arguments of the persistence, the other contracts of
-- validate_data.py, and the other scripts (the generators and validators of slides, logos, icons and
-- brand documents); the game engine in Go (cmd, internal, pkg), the shell and JavaScript tools, the
-- SQL migrations, the documents and the data.
mod Prelude
pub mod Text
pub mod Regex
pub mod Dict
pub mod Sort
pub mod Floats
pub mod DecisionRules
pub mod SlideSearch
pub mod IdentitySearch
pub mod DesignSystem
pub mod Validation
pub mod Styling
pub mod Catalog
