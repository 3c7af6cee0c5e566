-- ===== src/Mail/Message.antt =====
-- src/mail/mbox.rs: the lines of a whole message, header by header.
use gcit.Base.{All, ◌∷◌, ◌++◌, [], if◌then◌else◌, refl, if_ind, arith}
use gcit.Mail.{
  Bytes, newline, ascii, sanitize_header, split, starts_with, escape_mboxrd, ends_with_newline,
  format_message,
}
use gcit.Mail.Lines.{has_newline, IsLine, has_newline-append}
use gcit.Mail.Framing.{
  Ordinary, IsOneMessage, append_newline-IsOneMessage, line-IsOneMessage, header-Ordinary,
  escape_mboxrd-Ordinary, sanitize_header-IsLine,
}

append-IsLine : (a b : Bytes) → IsLine a → IsLine b → IsLine (a ++ b)
append-IsLine a b ha hb = ground (arith, has_newline-append a b, ha, hb)

-- The `To` header.
to_line : Bytes → Bytes → Bytes
to_line user hostname = ascii "To: " ++ sanitize_header user ++ (64 ∷ sanitize_header hostname)

to_line-IsLine : (user hostname : Bytes) → IsLine (to_line user hostname)
unfolding to_line has_newline
to_line-IsLine user hostname =
    append-IsLine (sanitize_header user) (64 ∷ sanitize_header hostname)
      (sanitize_header-IsLine user) (sanitize_header-IsLine hostname)

-- Everything behind the first line, before the newlines at the end.
headers : Bytes → Bytes → Bytes → Bytes → Bytes → Bytes
headers date_header user hostname subject body =
    (ascii "Date: " ++ sanitize_header date_header)
    ++ (newline ∷ (ascii "From: gcit@" ++ sanitize_header hostname)
        ++ (newline ∷ (ascii "To: " ++ sanitize_header user ++ (64 ∷ sanitize_header hostname))
            ++ (newline ∷ (ascii "Subject: " ++ sanitize_header subject)
                ++ (newline ∷ ascii "Content-Type: text/plain; charset=utf-8"
                    ++ (newline ∷ ascii "MIME-Version: 1.0"
                        ++ (newline ∷ newline ∷ escape_mboxrd body))))))

headers-Ordinary :
    (date_header user hostname subject body : Bytes)
    → All Ordinary (split (headers date_header user hostname subject body))
unfolding headers starts_with has_newline to_line
headers-Ordinary date_header user hostname subject body =
    header-Ordinary (ascii "Date: " ++ sanitize_header date_header) _
      (sanitize_header-IsLine date_header) refl
      (header-Ordinary (ascii "From: gcit@" ++ sanitize_header hostname) _
        (sanitize_header-IsLine hostname) refl
        (header-Ordinary (ascii "To: " ++ sanitize_header user ++ (64 ∷ sanitize_header hostname)) _
          (to_line-IsLine user hostname) refl
          (header-Ordinary (ascii "Subject: " ++ sanitize_header subject) _
            (sanitize_header-IsLine subject) refl
            (header-Ordinary (ascii "Content-Type: text/plain; charset=utf-8") _ refl refl (
              header-Ordinary (ascii "MIME-Version: 1.0") _ refl refl (
                header-Ordinary [] (escape_mboxrd body) refl refl
                  (escape_mboxrd-Ordinary body)))))))

close-IsOneMessage :
    (first out : Bytes)
    → IsOneMessage first (split out)
    → IsOneMessage first
        (split ((if ends_with_newline out then out else out ++ (newline ∷ [])) ++ (newline ∷ [])))
close-IsOneMessage first out h = append_newline-IsOneMessage first _ (
    if_ind (λ s. IsOneMessage first (split s)) (ends_with_newline out) (λ _. h)
      (λ _. append_newline-IsOneMessage first out h))

-- Of the lines of a message only the first begins with `From `, whatever the user, the host, the
-- subject and the body are, where the date in the first line has no newline.
pub format_message-IsOneMessage :
    (from_line_date date_header user hostname subject body : Bytes)
    → IsLine from_line_date
    → IsOneMessage
        (ascii "From gcit " ++ from_line_date)
        (split (format_message from_line_date date_header user hostname subject body))
unfolding format_message headers has_newline
format_message-IsOneMessage from_line_date date_header user hostname subject body date =
    let first = ascii "From gcit " ++ from_line_date in
    close-IsOneMessage first (first ++ (newline ∷ headers date_header user hostname subject body)) (
      line-IsOneMessage first (headers date_header user hostname subject body) date
        (headers-Ordinary date_header user hostname subject body))
