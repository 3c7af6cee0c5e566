-- ===== src/Mail/Samples.antt =====
-- A message whose subject and body try to begin another one.
use gcit.Base.{◌∷◌, ◌++◌, ◌≡◌, refl}
use gcit.Mail.{
  Bytes, ascii, split, format_message, sanitize_header, escape_mboxrd, needs_mboxrd_quote,
  quote_line, sanitize_from, push_lines, escape_lines, trim_quotes, starts_with,
}
use gcit.Mail.Lines.{has_newline}
use gcit.Mail.Framing.{IsOneMessage, unescape_mboxrd, unescape_mboxrd-escape_mboxrd}
use gcit.Mail.Message.{format_message-IsOneMessage}

abbrev date : Bytes
date = ascii "Wed Jan  1 00:00:00 2025"

-- A run failed, and a line that would begin a message.
abbrev forged : Bytes
forged = ascii "failed" ++ (10 ∷ ascii "From root")

escaped : escape_mboxrd forged ≡ ascii "failed" ++ (10 ∷ ascii ">From root")
unfolding escape_mboxrd escape_lines push_lines quote_line needs_mboxrd_quote trim_quotes
    starts_with split
escaped = refl

sanitized : sanitize_header forged ≡ ascii "failed From root"
unfolding sanitize_header sanitize_from
sanitized = refl

format_message-IsOneMessage_example : IsOneMessage (ascii "From gcit " ++ date) (
    split
      (format_message date (ascii "Wed, 01 Jan 2025") (ascii "root") (ascii "host") forged forged))
unfolding has_newline
format_message-IsOneMessage_example =
    format_message-IsOneMessage date (ascii "Wed, 01 Jan 2025") (ascii "root") (ascii "host") forged
      forged refl

unescape_mboxrd-escape_mboxrd_example : unescape_mboxrd (escape_mboxrd forged) ≡ forged
unescape_mboxrd-escape_mboxrd_example = unescape_mboxrd-escape_mboxrd forged
