-- ===== src/Email.antt =====
-- internal/email/email.go: how the message to the administrator is sent. The packages `smtp`, `tls`
-- and `net` are parameters: what each call answers is given, and the calls made are a list.
pub mod Sent
mod Examples
use my_sql_backup.Base.{ℕ, Bool, true, false, not, ◌&&◌, ◌||◌, List, [], ◌∷◌, ◌++◌}
use my_sql_backup.Base.Tests.{◌==◌, if◌then◌else◌}
use my_sql_backup.Base.Lists.{is_empty}
use my_sql_backup.Base.Int.{ℤ, pos, negsuc}
use my_sql_backup.Base.Texts.{Text, codes, text_eq, trim_space, to_lower}
use my_sql_backup.Base.Decimal.{decimal}
use my_sql_backup.Base.Results.{Error, os_error, message, Result, ok, err}

-- The fields of `config.Config` about the mail.
pub record MailConfig : Type 0 where
  pub admin_email : Text
  pub admin_smtp_server : Text
  pub admin_smtp_port : ℤ
  pub admin_smtp_user : Text
  pub admin_smtp_tls : Text

-- The calls of the libraries, in the words of the source.
pub data Call : Type 0 where
  tls_dial : Text → Call
  net_dial : Text → Call
  new_client : Call
  start_tls : Call
  auth : (user : Text) → Call
  mail : Text → Call
  rcpt : Text → Call
  begin_text : Call
  write_text : Text → Call
  close_text : Call
  quit : Call
  send_mail : (addr user : Text) → Text → Call

abbrev port_or_default : ℤ → ℕ
port_or_default (negsuc n) = 587
port_or_default (pos n) = if n == 0 then 587 else n

unfoldable pub port_of : MailConfig → ℕ
port_of cfg = port_or_default cfg.admin_smtp_port

unfoldable pub addr_of : MailConfig → Text
addr_of cfg = cfg.admin_smtp_server ++ (b':' ∷ decimal (port_of cfg))

unfoldable pub auth_user : MailConfig → Text
auth_user cfg =
    if is_empty (trim_space cfg.admin_smtp_user)
    then cfg.admin_email
    else trim_space cfg.admin_smtp_user

unfoldable pub mail_text : MailConfig → (subject body : Text) → Text
mail_text cfg subject body =
    codes "To: "
    ++ (cfg.admin_email
        ++ (codes "\r\nSubject: "
            ++ (subject
                ++ (codes "\r\nContent-Type: text/plain; charset=UTF-8\r\n\r\n"
                    ++ (body ++ codes "\r\n")))))

-- The value of `tlsMode` in the `switch`.
unfoldable pub tls_mode : MailConfig → Text
tls_mode cfg =
    let mode = to_lower (trim_space cfg.admin_smtp_tls) in
    if is_empty mode
    then if port_of cfg == 465
      then codes "tls"
      else if port_of cfg == 587
      then codes "starttls"
      else []
    else mode

-- The calls from `client.Auth` on.
abbrev pub deliver : MailConfig → (text : Text) → List Call
deliver cfg text =
    auth (auth_user cfg)
    ∷ mail cfg.admin_email
    ∷ rcpt cfg.admin_email
    ∷ begin_text
    ∷ write_text text
    ∷ close_text
    ∷ quit
    ∷ []

unfoldable pub send_tls : MailConfig → Text → List Call
send_tls cfg text = tls_dial (addr_of cfg) ∷ new_client ∷ deliver cfg text

-- `offered` is the answer of `client.Extension("STARTTLS")`.
unfoldable pub send_starttls : (offered : Bool) → MailConfig → Text → List Call
send_starttls offered cfg text =
    net_dial (addr_of cfg)
    ∷ new_client
    ∷ (if offered then start_tls ∷ deliver cfg text else deliver cfg text)

-- The calls of a mode, as long as none fails.
unfoldable pub calls_for : (mode : Text) (offered : Bool) → MailConfig → Text → List Call
calls_for mode offered cfg text =
    if text_eq mode (codes "tls")
    then send_tls cfg text
    else if text_eq mode (codes "starttls")
    then send_starttls offered cfg text
    else send_mail (addr_of cfg) (auth_user cfg) text ∷ []

abbrev error_of : Call → Error
error_of (tls_dial a) = message (codes "err.tls_dial") []
error_of (net_dial a) = message (codes "err.dial") []
error_of start_tls = message (codes "err.starttls") []
error_of c = os_error

-- The calls in turn, up to the first that fails.
unfoldable pub perform : (answers : Call → Bool) → List Call → Result (Unit {0}) × List Call
perform answers [] = (ok tt, [])
perform answers (c ∷ cs) =
    let rest = perform answers cs in
    if answers c then (rest.0, c ∷ rest.1) else (err (error_of c), c ∷ [])

unfoldable pub send :
    (answers : Call → Bool) (offered : Bool)
    → MailConfig
    → (subject body : Text) → Result (Unit {0}) × List Call
send answers offered cfg subject body =
    if is_empty cfg.admin_email || is_empty cfg.admin_smtp_server
    then (ok tt, [])
    else perform answers (calls_for (tls_mode cfg) offered cfg (mail_text cfg subject body))

-- `FormatErrorBody`
unfoldable pub format_error_body : (subject err_detail log_excerpt : Text) → Text
format_error_body subject err_detail log_excerpt =
    subject
    ++ (codes "\n\nFehlerdetails / Error details:\n"
        ++ (err_detail
            ++ (codes "\n\n"
                ++ (if is_empty log_excerpt
                    then []
                    else codes "Log-Auszug / Log excerpt:\n" ++ log_excerpt))))
