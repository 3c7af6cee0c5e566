-- ===== src/Discord/Samples.antt =====
-- The embed of a failed run with three jobs, where two fields are allowed.
use gcit.Base.{ℕ, true, false, none, some, [], ◌∷◌, refl, arith}
use gcit.Base.Results.{ok}
use gcit.Mail.{ascii}
use gcit.Github.Values.{failure, completed, JobResult, RunSummary}
use gcit.Flow.{RunContext}
use gcit.Discord.{chars, DiscordTemplateConfig, Limits, Embed, build_run_complete_embed, color_for}
use gcit.Discord.Bounds.{Fits, build_run_complete_embed-Fits}

abbrev limits : Limits
limits = record {
  title_length = 6;
  description_length = 10;
  field_count = 2;
  field_name_length = 8;
  field_value_length = 20;
  footer_text_length = 40;
}

abbrev templates : DiscordTemplateConfig
templates = record {
  title = some (chars "a long title");
  description = none;
  field_name = none;
  field_value = none;
  collapsed_summary = none;
}

abbrev context : RunContext ℕ
context = record {
  flow_name = "builder";
  flow_description = none;
  source = record { url = ""; ref_name = ""; sha = 5; sha_short = ascii "ab" };
  action = record {
    repo = ascii "o/r";
    workflow = ascii "ci.yml";
    run_id = 42;
    run_url = "";
    dispatched_at = 12;
  };
  gcit_run_id = ascii "7";
}

abbrev job : ℕ → JobResult
job id = record {
  job_id = id;
  name = "build";
  html_url = "u";
  conclusion = some failure;
  started_at = none;
  completed_at = none;
  steps = [];
  run_attempt = 1;
}

abbrev run : RunSummary
run = record {
  run_id = 42;
  run_url = "u";
  run_number = 3;
  run_attempt = 1;
  status = completed;
  conclusion = some failure;
  started_at = none;
  completed_at = none;
  jobs = job 1 ∷ job 2 ∷ job 3 ∷ [];
}

-- One job has a field, and the last field stands for the other two.
abbrev embed : Embed
embed = record {
  color = color_for failure;
  description = none;
  fields =
      record { inline = true; name = chars "build"; value = chars "[failure](u)" }
      ∷ record { inline = false; name = chars "…"; value = chars "and n more job(s)" }
      ∷ [];
  footer = chars "Run #n · attempt n";
  title = some (chars "a lon…");
  url = "u";
}

build_run_complete_embed-Fits_example :
    Fits limits (λ n. chars "n") (λ ctx summary job t. ok t) templates context run embed
unfolding build_run_complete_embed
build_run_complete_embed-Fits_example =
    build_run_complete_embed-Fits limits (λ n. chars "n") (λ ctx summary job t. ok t) templates
      context run embed (omega arith) refl
