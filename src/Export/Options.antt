-- ===== src/Export/Options.antt =====
-- The options of an export: `normalizeExportOptions`, `resolveThemePalette` and
-- `getDocumentBackground` of web/src/lib/flow-export.ts. `property_value` stands for
-- `getPropertyValue` of the document's computed style. The options that are passed on as they are
-- are left out.
mod Tests
use mc_gantry.Base.{
  ℕ, ◌≡◌, refl, ◌≢◌, ◌⊎◌, inl, inr, Bool, true, false, List, [], ◌∷◌, Option, none, some, Text,
  codes, or_text, trim, List-cases,
}
use mc_gantry.Flow.Looks.{with_alpha}

pub data FlowExportFormat : Type 0 where
  svg png pdf : FlowExportFormat

pub data FlowExportStyle : Type 0 where
  presentation clean : FlowExportStyle

pub data FlowExportBackground : Type 0 where
  theme_background light_background transparent : FlowExportBackground

pub data FlowExportTheme : Type 0 where
  app light dark : FlowExportTheme

pub record FlowExportOptions : Type 0 where
  pub style : Option FlowExportStyle
  pub background : Option FlowExportBackground
  pub theme : Option FlowExportTheme

pub record FlowExportPalette : Type 0 where
  pub bg_primary : Text
  pub bg_secondary : Text
  pub bg_tertiary : Text
  pub text_primary : Text
  pub text_secondary : Text
  pub border : Text
  pub accent : Text
  pub accent_hover : Text
  pub danger : Text
  pub grid : Text

pub record NormalizedFlowExportOptions : Type 0 where
  pub style : FlowExportStyle
  pub background : FlowExportBackground
  pub theme : FlowExportTheme
  pub show_header : Bool
  pub show_frame : Bool
  pub show_grid : Bool
  pub show_edge_labels : Bool
  pub palette : FlowExportPalette

abbrev pub light_export_palette : FlowExportPalette
light_export_palette = record {
  bg_primary = codes "#FFFFFF";
  bg_secondary = codes "#F8FAFC";
  bg_tertiary = codes "#EEF2F7";
  text_primary = codes "#111827";
  text_secondary = codes "#6B7280";
  border = codes "#D1D5DB";
  accent = codes "#111827";
  accent_hover = codes "#374151";
  danger = codes "#DC2626";
  grid = codes "rgba(107, 114, 128, 0.10)";
}

abbrev pub dark_export_palette : FlowExportPalette
dark_export_palette = record {
  bg_primary = codes "#1C1C1E";
  bg_secondary = codes "#111113";
  bg_tertiary = codes "#2C2C2E";
  text_primary = codes "#F5F5F7";
  text_secondary = codes "#8E8E93";
  border = codes "#38383A";
  accent = codes "#F5F5F7";
  accent_hover = codes "#D1D1D6";
  danger = codes "#FF453A";
  grid = codes "rgba(142, 142, 147, 0.18)";
}

-- `o || default` on options.
abbrev pub or_default {ℓ} : {A : Type ℓ} → Option A → A → A
or_default none default = default
or_default (some a) default = a

module _ (property_value : Text → Text) where
  abbrev pub read : Text → Text → Text
  read name fallback = or_text (trim (property_value name)) fallback

  unfoldable pub resolve_theme_palette : FlowExportTheme → FlowExportPalette
  unfolding trim with_alpha
  resolve_theme_palette light = light_export_palette
  resolve_theme_palette dark = dark_export_palette
  resolve_theme_palette app = record {
    bg_primary = read (codes "--gantry-bg-primary") light_export_palette.bg_primary;
    bg_secondary = read (codes "--gantry-bg-secondary") light_export_palette.bg_secondary;
    bg_tertiary = read (codes "--gantry-bg-tertiary") light_export_palette.bg_tertiary;
    text_primary = read (codes "--gantry-text-primary") light_export_palette.text_primary;
    text_secondary = read (codes "--gantry-text-secondary") light_export_palette.text_secondary;
    border = read (codes "--gantry-border") light_export_palette.border;
    accent = read (codes "--gantry-accent") light_export_palette.accent;
    accent_hover = read (codes "--gantry-accent-hover") light_export_palette.accent_hover;
    danger = read (codes "--gantry-danger") light_export_palette.danger;
    grid =
        with_alpha (read (codes "--gantry-text-secondary") light_export_palette.text_secondary)
          (codes "16");
  }

  abbrev pub default_background : FlowExportStyle → FlowExportFormat → FlowExportBackground
  default_background clean pdf = light_background
  default_background clean svg = transparent
  default_background clean png = transparent
  default_background presentation format = theme_background

  -- A PDF has a background in any case.
  abbrev pub printable : FlowExportFormat → FlowExportBackground → FlowExportBackground
  printable pdf transparent = light_background
  printable format background = background

  abbrev pub is_presentation : FlowExportStyle → Bool
  is_presentation presentation = true
  is_presentation clean = false

  unfoldable pub normalize_export_options :
      FlowExportOptions → FlowExportFormat → NormalizedFlowExportOptions
  unfolding resolve_theme_palette
  normalize_export_options options format =
      let theme = or_default options.theme app in
      let style = or_default options.style presentation in
      let background = or_default options.background (default_background style format) in
      record {
        style = style;
        background = printable format background;
        theme = theme;
        show_header = is_presentation style;
        show_frame = is_presentation style;
        show_grid = is_presentation style;
        show_edge_labels = is_presentation style;
        palette = resolve_theme_palette theme;
      }

abbrev pub document_background_of : FlowExportBackground → FlowExportPalette → Text
document_background_of light_background palette = codes "#FFFFFF"
document_background_of transparent palette = []
document_background_of theme_background palette = palette.bg_secondary

abbrev pub get_document_background : NormalizedFlowExportOptions → Text
get_document_background options = document_background_of options.background options.palette

cons-ne-nil : (c : ℕ) (s : Text) → c ∷ s ≢ []
cons-ne-nil c s e = cc

or_text-ne-nil : (s t : Text) → t ≢ [] → or_text s t ≢ []
or_text-ne-nil [] t h = h
or_text-ne-nil (c ∷ s) t h = λ e. cc

bg_secondary-ne-nil :
    (property_value : Text → Text) (theme : FlowExportTheme)
    → (resolve_theme_palette property_value theme).bg_secondary ≢ []
unfolding resolve_theme_palette
bg_secondary-ne-nil property_value light = λ e. cc
bg_secondary-ne-nil property_value dark = λ e. cc
bg_secondary-ne-nil property_value app =
    or_text-ne-nil (trim (property_value (codes "--gantry-bg-secondary")))
      light_export_palette.bg_secondary (cons-ne-nil b'#' (codes "F8FAFC"))

printable-ne-nil :
    (property_value : Text → Text) (background : FlowExportBackground) (palette : FlowExportPalette)
    → palette.bg_secondary ≢ []
    → document_background_of (printable property_value pdf background) palette ≢ []
printable-ne-nil property_value theme_background palette h = h
printable-ne-nil property_value light_background palette h = λ e. cc
printable-ne-nil property_value transparent palette h = λ e. cc

-- A PDF always has a colour for its background, whatever the options are and whatever the styles of
-- the document have.
pub get_document_background-pdf :
    (property_value : Text → Text) (options : FlowExportOptions)
    → get_document_background (normalize_export_options property_value options pdf) ≢ []
unfolding normalize_export_options
get_document_background-pdf property_value options =
    let theme = or_default options.theme app in
    let style = or_default options.style presentation in
    printable-ne-nil property_value
      (or_default options.background (default_background property_value style pdf))
      (resolve_theme_palette property_value theme) (bg_secondary-ne-nil property_value theme)
