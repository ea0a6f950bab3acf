-- ===== src/Catalog/Config.antt =====
-- The tables that say which file a domain is searched in, by which columns, with which result.
-- One entry of CSV_CONFIG.
use package.true.Dict.{Dict}
use package.true.Prelude.{List, String, [], map, ◌∷◌}
use package.true.Text.{Text, lit}

pub record Config : Type 0 where
  pub file : Text
  pub search_cols : List Text
  pub output_cols : List Text

abbrev pub config : String → List String → List String → Config
config file search_cols output_cols = record {
  file = lit file;
  search_cols = map lit search_cols;
  output_cols = map lit output_cols;
}

-- CSV_CONFIG
unfoldable pub csv_config : Dict Config
csv_config =
    (
      lit "style",
      config "styles.csv"
          ("Style ID" ∷ "Style Category" ∷ "Aliases" ∷ "Keywords" ∷ "Best For" ∷ "Type"
            ∷ "AI Prompt Keywords" ∷ [])
          ("Style ID" ∷ "Style Category" ∷ "Aliases" ∷ "Status" ∷ "Parent Style ID"
            ∷ "Preferred Mode" ∷ "Type" ∷ "Keywords" ∷ "Primary Colors" ∷ "Effects & Animation"
            ∷ "Best For" ∷ "Light Mode ✓" ∷ "Dark Mode ✓" ∷ "Performance" ∷ "Accessibility"
            ∷ "Framework Compatibility" ∷ "Complexity" ∷ "AI Prompt Keywords"
            ∷ "CSS/Technical Keywords" ∷ "Implementation Checklist" ∷ "Design System Variables"
            ∷ []),
    )
    ∷ (
      lit "color",
      config "colors.csv" ("Product Type" ∷ "Notes" ∷ []) (
          "Product Type" ∷ "Primary" ∷ "On Primary" ∷ "Secondary" ∷ "On Secondary" ∷ "Accent"
          ∷ "On Accent" ∷ "Background" ∷ "Foreground" ∷ "Card" ∷ "Card Foreground" ∷ "Muted"
          ∷ "Muted Foreground" ∷ "Border" ∷ "Destructive" ∷ "On Destructive" ∷ "Ring" ∷ "Notes"
          ∷ []),
    )
    ∷ (
      lit "chart",
      config "charts.csv"
          ("Data Type" ∷ "Keywords" ∷ "Best Chart Type" ∷ "When to Use" ∷ "When NOT to Use"
            ∷ "Accessibility Notes" ∷ [])
          ("Data Type" ∷ "Keywords" ∷ "Best Chart Type" ∷ "Secondary Options" ∷ "When to Use"
            ∷ "When NOT to Use" ∷ "Data Volume Threshold" ∷ "Color Guidance" ∷ "Accessibility Grade"
            ∷ "Accessibility Risk" ∷ "Accessibility Notes" ∷ "A11y Fallback"
            ∷ "Library Recommendation" ∷ "Interactive Level" ∷ []),
    )
    ∷ (
      lit "landing",
      config "landing.csv"
          ("Pattern ID" ∷ "Pattern Name" ∷ "Aliases" ∷ "Keywords" ∷ "Conversion Optimization"
            ∷ "Section Order" ∷ [])
          ("Pattern ID" ∷ "Pattern Name" ∷ "Aliases" ∷ "Keywords" ∷ "Section Order"
            ∷ "Primary CTA Placement" ∷ "Color Strategy" ∷ "Conversion Optimization" ∷ []),
    )
    ∷ (
      lit "product",
      config "products.csv"
          ("Product Type" ∷ "Keywords" ∷ "Primary Style Recommendation" ∷ "Key Considerations" ∷ [])
          ("Product Type" ∷ "Keywords" ∷ "Primary Style Recommendation" ∷ "Secondary Styles"
            ∷ "Landing Page Pattern" ∷ "Dashboard Style (if applicable)" ∷ "Color Palette Focus"
            ∷ []),
    )
    ∷ (
      lit "ux",
      config "ux-guidelines.csv" ("Category" ∷ "Issue" ∷ "Description" ∷ "Platform" ∷ []) (
          "Category" ∷ "Issue" ∷ "Platform" ∷ "Description" ∷ "Do" ∷ "Don't" ∷ "Code Example Good"
          ∷ "Code Example Bad" ∷ "Severity" ∷ []),
    )
    ∷ (
      lit "typography",
      config "typography.csv"
          ("Font Pairing Name" ∷ "Category" ∷ "Mood/Style Keywords" ∷ "Best For" ∷ "Heading Font"
            ∷ "Body Font" ∷ [])
          ("Font Pairing Name" ∷ "Category" ∷ "Heading Font" ∷ "Body Font" ∷ "Mood/Style Keywords"
            ∷ "Best For" ∷ "Google Fonts URL" ∷ "CSS Import" ∷ "Tailwind Config" ∷ "Notes" ∷ []),
    )
    ∷ (
      lit "icons",
      config "icons.csv" ("Category" ∷ "Icon Name" ∷ "Keywords" ∷ "Best For" ∷ "Library" ∷ []) (
          "Category" ∷ "Icon Name" ∷ "Keywords" ∷ "Library" ∷ "Import Code" ∷ "Usage" ∷ "Best For"
          ∷ "Style" ∷ "Semantic Role" ∷ "Allowed Contexts" ∷ []),
    )
    ∷ (
      lit "gsap",
      config "motion.csv" ("Category" ∷ "Intensity Tier" ∷ "Keywords" ∷ "Trigger" ∷ []) (
          "Category" ∷ "Intensity Tier" ∷ "Trigger" ∷ "Duration" ∷ "Easing" ∷ "GSAP Snippet"
          ∷ "Framework Notes" ∷ "Do" ∷ "Don't" ∷ "Performance Notes" ∷ []),
    )
    ∷ (
      lit "react",
      config "react-performance.csv" ("Category" ∷ "Issue" ∷ "Keywords" ∷ "Description" ∷ []) (
          "Category" ∷ "Issue" ∷ "Platform" ∷ "Description" ∷ "Do" ∷ "Don't" ∷ "Code Example Good"
          ∷ "Code Example Bad" ∷ "Severity" ∷ []),
    )
    ∷ (
      lit "web",
      config "app-interface.csv" ("Category" ∷ "Issue" ∷ "Keywords" ∷ "Description" ∷ []) (
          "Category" ∷ "Issue" ∷ "Platform" ∷ "Description" ∷ "Do" ∷ "Don't" ∷ "Code Example Good"
          ∷ "Code Example Bad" ∷ "Severity" ∷ []),
    )
    ∷ (
      lit "google-fonts",
      config "google-fonts.csv"
          ("Family" ∷ "Category" ∷ "Stroke" ∷ "Classifications" ∷ "Keywords" ∷ "Subsets"
            ∷ "Designers" ∷ [])
          ("Family" ∷ "Category" ∷ "Stroke" ∷ "Classifications" ∷ "Styles" ∷ "Variable Axes"
            ∷ "Subsets" ∷ "Designers" ∷ "Popularity Rank" ∷ "Google Fonts URL" ∷ []),
    )
    ∷ []

-- STACK_CONFIG
unfoldable pub stack_config : Dict Text
stack_config =
    (lit "react", lit "stacks/react.csv")
    ∷ (lit "nextjs", lit "stacks/nextjs.csv")
    ∷ (lit "vue", lit "stacks/vue.csv")
    ∷ (lit "svelte", lit "stacks/svelte.csv")
    ∷ (lit "astro", lit "stacks/astro.csv")
    ∷ (lit "swiftui", lit "stacks/swiftui.csv")
    ∷ (lit "react-native", lit "stacks/react-native.csv")
    ∷ (lit "flutter", lit "stacks/flutter.csv")
    ∷ (lit "nuxtjs", lit "stacks/nuxtjs.csv")
    ∷ (lit "nuxt-ui", lit "stacks/nuxt-ui.csv")
    ∷ (lit "html-tailwind", lit "stacks/html-tailwind.csv")
    ∷ (lit "shadcn", lit "stacks/shadcn.csv")
    ∷ (lit "jetpack-compose", lit "stacks/jetpack-compose.csv")
    ∷ (lit "threejs", lit "stacks/threejs.csv")
    ∷ (lit "angular", lit "stacks/angular.csv")
    ∷ (lit "laravel", lit "stacks/laravel.csv")
    ∷ (lit "javafx", lit "stacks/javafx.csv")
    ∷ (lit "wpf", lit "stacks/wpf.csv")
    ∷ (lit "winui", lit "stacks/winui.csv")
    ∷ (lit "avalonia", lit "stacks/avalonia.csv")
    ∷ (lit "uno", lit "stacks/uno.csv")
    ∷ (lit "uwp", lit "stacks/uwp.csv")
    ∷ []

-- _STACK_COLS
unfoldable pub stack_search_cols : List Text
stack_search_cols =
    map lit
      ("Category" ∷ "Guideline" ∷ "Description" ∷ "Do" ∷ "Don't" ∷ "Code Good" ∷ "Code Bad" ∷ [])

unfoldable pub stack_output_cols : List Text
stack_output_cols = map lit (
    "Category" ∷ "Guideline" ∷ "Description" ∷ "Do" ∷ "Don't" ∷ "Code Good" ∷ "Code Bad"
    ∷ "Severity" ∷ "Docs URL" ∷ "Applies To" ∷ "Status" ∷ "Verified At" ∷ [])
