-- ===== src/Discord.antt =====
-- src/discord/template.rs, src/discord/embed.rs, src/discord/conclusion.rs: the embed that tells Discord
-- of a run. A text is its code points. The limits of twilight-validate, the printer of numbers and the
-- rendering of a template against the run, and a job of it, are parameters.
pub mod Bounds
mod Samples
use Prim.Native.String as String
use Prim.Native.Char.{code}
use gcit.Base.{
  ℕ, zero, suc, ◌+◌, ◌-◌, Bool, true, false, Option, none, some, unwrap_or, List, [], ◌∷◌, ◌++◌,
  length, take, leb, ltb, if◌then◌else◌,
}
use mathlib.Core.Option
use gcit.Base.Results.{Result, ok, err, map_ok}
use gcit.Github.Values.{
  Conclusion, success, skipped, neutral, failure, timed_out, cancelled, action_required, unknown,
  JobResult, RunSummary,
}
use gcit.Flow.{RunContext}

abbrev pub Text : Type 0
Text = List ℕ

abbrev pub chars : String.String → Text
chars String.[] = []
chars (String.◌∷◌ c s) = code c ∷ chars s

-- What a text that is cut ends with.
abbrev pub ellipsis : ℕ
ellipsis = 8230

unfoldable pub truncate_codepoints : Text → ℕ → Text
truncate_codepoints input zero = []
truncate_codepoints input (suc keep) =
    if leb (length input) (suc keep) then input else take keep input ++ (ellipsis ∷ [])

abbrev pub should_collapse : Conclusion → Bool
should_collapse success = true
should_collapse skipped = true
should_collapse neutral = true
should_collapse failure = false
should_collapse timed_out = false
should_collapse cancelled = false
should_collapse action_required = false
should_collapse unknown = false

abbrev pub label_for : Conclusion → Text
label_for success = chars "success"
label_for skipped = chars "skipped"
label_for neutral = chars "neutral"
label_for failure = chars "failure"
label_for timed_out = chars "timed out"
label_for cancelled = chars "cancelled"
label_for action_required = chars "action required"
label_for unknown = chars "unknown"

abbrev pub color_in_progress : ℕ
color_in_progress = 10070709

abbrev pub color_for : Conclusion → ℕ
color_for success = 3908957
color_for skipped = 7634829
color_for neutral = 10070709
color_for failure = 15548997
color_for timed_out = 16426522
color_for cancelled = 7634829
color_for action_required = 10181046
color_for unknown = 10070709

pub record DiscordTemplateConfig : Type 0 where
  pub title : Option Text
  pub description : Option Text
  pub field_name : Option Text
  pub field_value : Option Text
  pub collapsed_summary : Option Text

-- The limits of twilight-validate.
pub record Limits : Type 0 where
  pub title_length : ℕ
  pub description_length : ℕ
  pub field_count : ℕ
  pub field_name_length : ℕ
  pub field_value_length : ℕ
  pub footer_text_length : ℕ

pub record EmbedField : Type 0 where
  pub inline : Bool
  pub name : Text
  pub value : Text

-- What of an embed is set.
pub record Embed : Type 0 where
  pub color : ℕ
  pub description : Option Text
  pub fields : List EmbedField
  pub footer : Text
  pub title : Option Text
  pub url : String.String

unfoldable pub render_and_truncate : Result Text Text → ℕ → Result Text Text
unfolding truncate_codepoints
render_and_truncate rendered max_chars = map_ok (λ s. truncate_codepoints s max_chars) rendered

unfoldable pub render_optional :
    (Text → Result Text Text) → Option Text → ℕ → Result Text (Option Text)
unfolding render_and_truncate
render_optional render none max_chars = ok none
render_optional render (some t) max_chars = map_ok some (render_and_truncate (render t) max_chars)

-- A field's text: its template, or the text that stands for a missing one.
unfoldable pub text_or : (Text → Result Text Text) → Option Text → Text → ℕ → Result Text Text
unfolding render_and_truncate
text_or render none default max_chars = ok (truncate_codepoints default max_chars)
text_or render (some t) default max_chars = render_and_truncate (render t) max_chars

abbrev pub field_of : Bool → Result Text Text → Result Text Text → Result Text EmbedField
field_of inline (err e) value = err e
field_of inline (ok name) (err e) = err e
field_of inline (ok name) (ok value) = ok (record { inline = inline; name = name; value = value })

abbrev pub push_field :
    Result Text EmbedField → Result Text (List EmbedField) → Result Text (List EmbedField)
push_field (err e) rest = err e
push_field (ok field) rest = map_ok (λ fields. field ∷ fields) rest

abbrev pub conclusion_label : Option Conclusion → Text → Text
conclusion_label none default = default
conclusion_label (some c) default = label_for c

abbrev pub collapses : Option Conclusion → Bool
collapses none = false
collapses (some c) = should_collapse c

abbrev pub color_of : Option Conclusion → ℕ
color_of none = color_in_progress
color_of (some c) = color_for c

-- `render` renders a template against the run, and against one of its jobs where one is given.
module _ {ObjectId : Type 0} (limits : Limits) (show : ℕ → Text)
    (render : RunContext ObjectId → RunSummary → Option JobResult → Text → Result Text Text)
    (templates : DiscordTemplateConfig) (ctx : RunContext ObjectId) (summary : RunSummary) where
  -- The texts that stand for missing templates.
  abbrev pub summary_text : Text
  summary_text =
      show (length summary.jobs)
      ++ chars " jobs · "
      ++ conclusion_label summary.conclusion (chars "complete")

  abbrev pub job_text : JobResult → Text
  job_text job =
      chars "["
      ++ conclusion_label job.conclusion (chars "in progress")
      ++ chars "]("
      ++ chars job.html_url
      ++ chars ")"

  unfoldable pub build_collapsed_fields : Result Text (List EmbedField)
  unfolding text_or truncate_codepoints
  build_collapsed_fields =
      push_field
        (field_of false (ok (truncate_codepoints (chars "Summary") limits.field_name_length)) (
          text_or (render ctx summary none) templates.collapsed_summary summary_text
            limits.field_value_length))
        (ok [])

  unfoldable pub job_field : JobResult → Result Text EmbedField
  unfolding text_or
  job_field job =
      field_of true
        (text_or (render ctx summary (some job)) templates.field_name (chars job.name)
          limits.field_name_length)
        (text_or (render ctx summary (some job)) templates.field_value (job_text job)
          limits.field_value_length)

  -- The fields of the jobs, with those that follow.
  unfoldable pub job_fields : List EmbedField → List JobResult → Result Text (List EmbedField)
  unfolding job_field
  job_fields after [] = ok after
  job_fields after (job ∷ jobs) = push_field (job_field job) (job_fields after jobs)

  -- How many jobs have a field, and the field that stands for the others.
  abbrev pub shown_jobs : ℕ
  shown_jobs =
      if ltb limits.field_count (length summary.jobs)
      then limits.field_count - 1
      else limits.field_count

  unfoldable pub more_jobs : List EmbedField
  unfolding truncate_codepoints
  more_jobs =
      if ltb limits.field_count (length summary.jobs)
      then record {
        inline = false;
        name = truncate_codepoints (ellipsis ∷ []) limits.field_name_length;
        value =
            truncate_codepoints
              (chars "and " ++ show (length summary.jobs - shown_jobs) ++ chars " more job(s)")
              limits.field_value_length;
      }
        ∷ []
      else []

  unfoldable pub build_expanded_fields : Result Text (List EmbedField)
  unfolding job_fields more_jobs
  build_expanded_fields = job_fields more_jobs (take shown_jobs summary.jobs)

  abbrev pub build_fields : Result Text (List EmbedField)
  unfolding build_collapsed_fields build_expanded_fields
  build_fields =
      if collapses summary.conclusion then build_collapsed_fields else build_expanded_fields

  unfoldable pub embed_of : Option Text → Option Text → List EmbedField → Embed
  unfolding truncate_codepoints
  embed_of title description fields = record {
    color = color_of summary.conclusion;
    description = description;
    fields = fields;
    footer =
        truncate_codepoints
          (chars "Run #"
            ++ show summary.run_number
            ++ chars " · attempt "
            ++ show summary.run_attempt)
          limits.footer_text_length;
    title = title;
    url = summary.run_url;
  }

  unfoldable pub assemble :
      Result Text (Option Text)
      → Result Text (Option Text)
      → Result Text (List EmbedField)
      → Result Text Embed
  unfolding embed_of
  assemble (err e) description fields = err e
  assemble (ok title) (err e) fields = err e
  assemble (ok title) (ok description) fields = map_ok (embed_of title description) fields

  unfoldable pub build_run_complete_embed : Result Text Embed
  unfolding assemble render_optional build_fields
  build_run_complete_embed =
      assemble (render_optional (render ctx summary none) templates.title limits.title_length)
        (render_optional (render ctx summary none) templates.description limits.description_length)
        build_fields

abbrev pub optional_length : Option Text → ℕ
optional_length none = 0
optional_length (some s) = length s

unfoldable pub fields_length : List EmbedField → ℕ
fields_length [] = 0
fields_length (field ∷ fields) = length field.name + length field.value + fields_length fields

unfoldable pub embed_codepoint_count : Embed → ℕ
unfolding fields_length
embed_codepoint_count e =
    optional_length e.description
    + length e.footer
    + fields_length e.fields
    + optional_length e.title
