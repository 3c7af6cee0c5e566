-- ===== src/Discord/Bounds.antt =====
-- src/discord/template.rs, src/discord/embed.rs: the sizes of the texts and the number of the fields.
use gcit.Base.{
  ℕ, zero, suc, ◌+◌, ◌-◌, ◌≤◌, min, Bool, true, false, Option, none, some, List, [], ◌∷◌, ◌++◌,
  length, take, length-take, length-append, All, leb, leb→le, ltb, if_ind, if◌then◌else◌, ◌≡◌, refl,
  ap, ◌∙◌, subst, arith,
}
use gcit.Base.Results.{Result, ok, err, map_ok}
use gcit.Github.Values.{JobResult, RunSummary}
use gcit.Flow.{RunContext}
use gcit.Discord.{
  Text, ellipsis, truncate_codepoints, DiscordTemplateConfig, Limits, EmbedField, Embed,
  render_and_truncate, render_optional, text_or, field_of, push_field, collapses, chars,
  summary_text, job_text, build_collapsed_fields, job_field, job_fields, shown_jobs, more_jobs,
  build_expanded_fields, build_fields, embed_of, assemble, build_run_complete_embed,
  optional_length,
}

truncate_codepoints_le : (input : Text) (n : ℕ) → length (truncate_codepoints input n) ≤ n
unfolding truncate_codepoints
truncate_codepoints_le input zero = omega arith
truncate_codepoints_le input (suc keep) =
    let cut : length (take keep input ++ (ellipsis ∷ [])) ≤ suc keep =
      omega (arith, length-append (take keep input) (ellipsis ∷ []), length-take keep input) in
    if_ind (λ (s : Text). length s ≤ suc keep) (leb (length input) (suc keep))
      (λ short. leb→le _ _ short) (λ _. cut)

-- What holds of a result, where it is no error.
abbrev IfOk {ℓ} : {A : Type 0} → (A → Type ℓ) → Result Text A → Type ℓ
IfOk P (err e) = Unit
IfOk P (ok a) = P a

IfOk-map :
    {A : Type 0} (P Q : A → Type 0)
    → ((a : A) → P a → Q a)
    → (r : Result Text A) → IfOk P r
    → IfOk Q r
IfOk-map P Q f (err e) h = tt
IfOk-map P Q f (ok a) h = f a h

render_and_truncate_le :
    (rendered : Result Text Text) (n : ℕ)
    → IfOk (λ s. length s ≤ n) (render_and_truncate rendered n)
unfolding render_and_truncate
render_and_truncate_le (err e) n = tt
render_and_truncate_le (ok s) n = truncate_codepoints_le s n

text_or_le :
    (render : Text → Result Text Text) (t : Option Text) (default : Text) (n : ℕ)
    → IfOk (λ s. length s ≤ n) (text_or render t default n)
unfolding text_or
text_or_le render none default n = truncate_codepoints_le default n
text_or_le render (some t) default n = render_and_truncate_le (render t) n

render_optional_le :
    (render : Text → Result Text Text) (t : Option Text) (n : ℕ)
    → IfOk (λ s. optional_length s ≤ n) (render_optional render t n)
unfolding render_optional
render_optional_le render none n = omega arith
render_optional_le render (some t) n =
    wrapped (render_and_truncate (render t) n) (render_and_truncate_le (render t) n)
  where
    wrapped :
        (r : Result Text Text)
        → IfOk (λ s. length s ≤ n) r
        → IfOk (λ s. optional_length s ≤ n) (map_ok some r)
    wrapped (err e) h = tt
    wrapped (ok s) h = h

module _ (limits : Limits) where
  abbrev pub FieldFits : EmbedField → Type 0
  FieldFits field =
      (length field.name ≤ limits.field_name_length)
      × (length field.value ≤ limits.field_value_length)

  field_of-FieldFits :
      (inline : Bool) (name value : Result Text Text)
      → IfOk (λ s. length s ≤ limits.field_name_length) name
      → IfOk (λ s. length s ≤ limits.field_value_length) value
      → IfOk FieldFits (field_of inline name value)
  field_of-FieldFits inline (err e) value hn hv = tt
  field_of-FieldFits inline (ok name) (err e) hn hv = tt
  field_of-FieldFits inline (ok name) (ok value) hn hv = (hn, hv)

  -- All fields fit, and there are as many as said.
  abbrev FieldsFit : ℕ → List EmbedField → Type 0
  FieldsFit n fields = All FieldFits fields × (length fields ≡ n)

  push_field-FieldsFit :
      (n : ℕ) (field : Result Text EmbedField) (rest : Result Text (List EmbedField))
      → IfOk FieldFits field
      → IfOk (FieldsFit n) rest
      → IfOk (FieldsFit (suc n)) (push_field field rest)
  push_field-FieldsFit n (err e) rest hf hr = tt
  push_field-FieldsFit n (ok field) (err e) hf hr = tt
  push_field-FieldsFit n (ok field) (ok fields) hf hr = ((hf, hr.0), ap suc hr.1)

  module _ {ObjectId : Type 0} (show : ℕ → Text)
      (render : RunContext ObjectId → RunSummary → Option JobResult → Text → Result Text Text)
      (templates : DiscordTemplateConfig) (ctx : RunContext ObjectId) (summary : RunSummary) where
    build_collapsed_fields-FieldsFit :
        IfOk (FieldsFit 1) (build_collapsed_fields limits show render templates ctx summary)
    unfolding build_collapsed_fields
    build_collapsed_fields-FieldsFit =
        let name : Text = truncate_codepoints (chars "Summary") limits.field_name_length in
        let text : Text = summary_text limits show render templates ctx summary in
        let value : Result Text Text =
          text_or (render ctx summary none) templates.collapsed_summary text
            limits.field_value_length in
        push_field-FieldsFit 0 (field_of false (ok name) value) (ok [])
          (field_of-FieldFits false (ok name) value
            (truncate_codepoints_le (chars "Summary") limits.field_name_length)
            (text_or_le (render ctx summary none) templates.collapsed_summary text
              limits.field_value_length))
          (tt, refl)

    job_field-FieldFits :
        (job : JobResult) → IfOk FieldFits (job_field limits show render templates ctx summary job)
    unfolding job_field
    job_field-FieldFits job =
        let rendered : Text → Result Text Text = render ctx summary (some job) in
        let text : Text = job_text limits show render templates ctx summary job in
        field_of-FieldFits true
          (text_or rendered templates.field_name (chars job.name) limits.field_name_length)
          (text_or rendered templates.field_value text limits.field_value_length)
          (text_or_le rendered templates.field_name (chars job.name) limits.field_name_length)
          (text_or_le rendered templates.field_value text limits.field_value_length)

    job_fields-FieldsFit :
        (n : ℕ) (after : List EmbedField) (jobs : List JobResult)
        → FieldsFit n after
        → IfOk
            (FieldsFit (length jobs + n))
            (job_fields limits show render templates ctx summary after jobs)
    unfolding job_fields
    job_fields-FieldsFit n after [] h = (h.0, omega (arith, h.1))
    job_fields-FieldsFit n after (job ∷ jobs) h =
        IfOk-map (FieldsFit (suc (length jobs + n))) (FieldsFit (length (job ∷ jobs) + n))
          (λ fields fit. (fit.0, omega (arith, fit.1))) _
          (push_field-FieldsFit (length jobs + n)
            (job_field limits show render templates ctx summary job) _ (job_field-FieldFits job)
            (job_fields-FieldsFit n after jobs h))

    -- The number of the fields for the jobs that have none of their own.
    abbrev more_count : ℕ
    more_count = if ltb limits.field_count (length summary.jobs) then 1 else 0

    more_jobs-FieldsFit : FieldsFit more_count (more_jobs limits show render templates ctx summary)
    unfolding more_jobs
    more_jobs-FieldsFit =
        elim (ltb limits.field_count (length summary.jobs))
          as (λ over. FieldsFit (if over then 1 else 0) (
            if over
            then record {
              inline = false;
              name = truncate_codepoints (ellipsis ∷ []) limits.field_name_length;
              value = truncate_codepoints extra limits.field_value_length;
            }
              ∷ []
            else [])) [
              | true ↦ (
                (
                  (
                    truncate_codepoints_le (ellipsis ∷ []) limits.field_name_length,
                    truncate_codepoints_le extra limits.field_value_length,
                  ),
                  tt,
                ),
                refl,
              )
              | false ↦ (tt, refl)
            ]
      where
        extra : Text
        extra =
            chars "and "
            ++ show (length summary.jobs - shown_jobs limits show render templates ctx summary)
            ++ chars " more job(s)"

    shown_and_more :
        1 ≤ limits.field_count
        → length (take (shown_jobs limits show render templates ctx summary) summary.jobs)
            + more_count
          ≡ min limits.field_count (length summary.jobs)
    shown_and_more room = ground (
      arith,
      room,
      length-take (shown_jobs limits show render templates ctx summary) summary.jobs,
    )

    build_expanded_fields-FieldsFit :
        1 ≤ limits.field_count
        → IfOk
            (FieldsFit (min limits.field_count (length summary.jobs)))
            (build_expanded_fields limits show render templates ctx summary)
    unfolding build_expanded_fields
    build_expanded_fields-FieldsFit room =
        let more : List EmbedField = more_jobs limits show render templates ctx summary in
        let shown : List JobResult =
          take (shown_jobs limits show render templates ctx summary) summary.jobs in
        IfOk-map (FieldsFit (length shown + more_count))
          (FieldsFit (min limits.field_count (length summary.jobs)))
          (λ fields fit. (fit.0, fit.1 ∙ shown_and_more room))
          (job_fields limits show render templates ctx summary more shown)
          (job_fields-FieldsFit more_count more shown more_jobs-FieldsFit)

    -- An embed that keeps the limits, with one field for a run that is collapsed, and as many fields as
    -- there are jobs, or are allowed, for one that is not.
    pub record Fits (e : Embed) : Type 0 where
      pub title : optional_length e.title ≤ limits.title_length
      pub description : optional_length e.description ≤ limits.description_length
      pub footer : length e.footer ≤ limits.footer_text_length
      pub fields : All FieldFits e.fields
      pub count : length e.fields ≡ (
          if collapses summary.conclusion then 1 else min limits.field_count (length summary.jobs))

    build_fields-FieldsFit :
        1 ≤ limits.field_count
        → IfOk
            (FieldsFit (
              if collapses summary.conclusion
              then 1
              else min limits.field_count (length summary.jobs)))
            (build_fields limits show render templates ctx summary)
    unfolding build_fields
    build_fields-FieldsFit room =
        elim (collapses summary.conclusion)
          as (λ b.
            IfOk (FieldsFit (if b then 1 else min limits.field_count (length summary.jobs))) (
              if b
              then build_collapsed_fields limits show render templates ctx summary
              else build_expanded_fields limits show render templates ctx summary)) [
                | true ↦ build_collapsed_fields-FieldsFit
                | false ↦ build_expanded_fields-FieldsFit room
              ]

    assemble-Fits :
        (title description : Result Text (Option Text)) (fields : Result Text (List EmbedField))
        → IfOk (λ s. optional_length s ≤ limits.title_length) title
        → IfOk (λ s. optional_length s ≤ limits.description_length) description
        → IfOk
            (FieldsFit (
              if collapses summary.conclusion
              then 1
              else min limits.field_count (length summary.jobs)))
            fields
        → IfOk Fits (assemble limits show render templates ctx summary title description fields)
    unfolding assemble embed_of
    assemble-Fits (err e) description fields ht hd hf = tt
    assemble-Fits (ok title) (err e) fields ht hd hf = tt
    assemble-Fits (ok title) (ok description) (err e) ht hd hf = tt
    assemble-Fits (ok title) (ok description) (ok fields) ht hd hf = record {
      title = ht;
      description = hd;
      footer =
          truncate_codepoints_le
            (chars "Run #"
              ++ show summary.run_number
              ++ chars " · attempt "
              ++ show summary.run_attempt)
            limits.footer_text_length;
      fields = hf.0;
      count = hf.1;
    }

    -- Where at least one field is allowed, an embed that is built keeps every limit: the title,
    -- the description, the footer and the name and the value of each field; and it has one field
    -- for a run that is a success, skipped or neutral, however few or many its jobs, and for any
    -- other run as many as there are jobs or as are allowed, whichever is less.
    pub build_run_complete_embed-Fits :
        (e : Embed)
        → 1 ≤ limits.field_count
        → build_run_complete_embed limits show render templates ctx summary ≡ ok e
        → Fits e
    unfolding build_run_complete_embed
    build_run_complete_embed-Fits e room built = subst (IfOk Fits) built (
        assemble-Fits _ _ _
          (render_optional_le (render ctx summary none) templates.title limits.title_length)
          (render_optional_le (render ctx summary none) templates.description
            limits.description_length)
          (build_fields-FieldsFit room))
