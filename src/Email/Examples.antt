-- ===== src/Email/Examples.antt =====
-- Runs of internal/email/email.go, and the theorem at concrete data.
use my_sql_backup.Base.{◌≡◌, refl, Bool, inl, true, false, []}
use my_sql_backup.Base.Int.{pos}
use my_sql_backup.Base.Texts.{codes, text_eq, trim_space, trim_left, to_lower}
use my_sql_backup.Email.{MailConfig, Call, rcpt, port_of, tls_mode, mail_text, send}
use my_sql_backup.Email.Sent.{IsProtected, Performed, protocol, is_bare, send-Performed}

-- No mode is configured, and the port is the one of TLS.
abbrev config : MailConfig
config = record {
  admin_email = codes "a@b";
  admin_smtp_server = codes "s";
  admin_smtp_port = pos 465;
  admin_smtp_user = [];
  admin_smtp_tls = codes " ";
}

mode_of_port : tls_mode config ≡ codes "tls"
unfolding tls_mode port_of trim_space trim_left to_lower
mode_of_port = refl

-- A server that refuses the recipient.
abbrev refuses_rcpt : Call → Bool
refuses_rcpt (rcpt a) = false
refuses_rcpt c = true

protected : IsProtected false config
unfolding tls_mode port_of trim_space trim_left to_lower text_eq
protected = inl refl

send-Performed_example :
    Performed refuses_rcpt
      (protocol
        (text_eq (tls_mode config) (codes "tls"))
        config
        (mail_text config (codes "x") (codes "y")))
      (send refuses_rcpt false config (codes "x") (codes "y"))
    × (is_bare false (send refuses_rcpt false config (codes "x") (codes "y")).1 ≡ false)
send-Performed_example =
    send-Performed refuses_rcpt false config (codes "x") (codes "y") refl refl protected
