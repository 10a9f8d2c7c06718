-- ===== src/Remote/Download.antt =====
-- What an upload sent is what a download gives back.
use my_sql_backup.Base.{ℕ, zero, suc, ◌≤◌, ◌≡◌, refl, ap, true, false, ◌&&◌, [], ◌∷◌, ◌++◌, arith}
use my_sql_backup.Base.Tests.{ltb, ◌==◌}
use my_sql_backup.Base.Lists.{length, take, drop, is_empty, length-append}
use my_sql_backup.Base.Texts.{Text}
use my_sql_backup.Base.Results.{ok}
use my_sql_backup.Remote.{Cipher, salt_len, nonce_len, header_len, is_not_zip, received}

take-append : (xs ys : Text) (n : ℕ) → length xs ≡ n → take n (xs ++ ys) ≡ xs
take-append [] ys n h = rw (← h) refl
take-append (x ∷ xs) ys n h = rw (← h) (ap (λ zs. x ∷ zs) (take-append xs ys (length xs) refl))

drop-append : (xs ys : Text) (n : ℕ) → length xs ≡ n → drop n (xs ++ ys) ≡ ys
drop-append [] ys n h = rw (← h) refl
drop-append (x ∷ xs) ys n h = rw (← h) (drop-append xs ys (length xs) refl)

length-take : (n : ℕ) (xs : Text) → n ≤ length xs → length (take n xs) ≡ n
length-take zero xs h = refl
length-take (suc n) [] h = omega arith
length-take (suc n) (x ∷ xs) h = ap suc (length-take n xs (omega arith))

sent_long :
    (header body : Text)
    → length header ≡ header_len
    → (ltb 0 (length (header ++ body)) && ltb (length (header ++ body)) header_len) ≡ false
sent_long header body h = ground (arith, length-append header body)

same_length : (header : Text) → length header ≡ header_len → (length header == header_len) ≡ true
same_length header h = ground arith

module _ (cipher : Cipher) where
  -- What `streamEncryptUpload` writes.
  abbrev pub sent : (password salt nonce text : Text) → Text
  sent password salt nonce text =
      (salt ++ nonce) ++ cipher.ctr (cipher.key password salt) nonce text

  -- If adding the key stream twice gives a text back, and the salt does not begin like a ZIP
  -- archive, then the download of an encrypted file with the same password gives its content.
  pub received-sent :
      (password salt nonce text : Text)
      → is_empty password ≡ false
      → length salt ≡ salt_len
      → length nonce ≡ nonce_len
      → is_not_zip (salt ++ nonce) ≡ true
      → ((k n t : Text) → cipher.ctr k n (cipher.ctr k n t) ≡ t)
      → received cipher password (sent password salt nonce text) ≡ ok text
  unfolding received
  received-sent password salt nonce text p ls ln z law =
      let header = salt ++ nonce in
      let body = cipher.ctr (cipher.key password salt) nonce text in
      let l = length-append salt nonce in
      let t = take-append header body header_len (omega arith) in
      let d = drop-append header body header_len (omega arith) in
      let ll = length-append header body in
      rw
        (
          sent_long header body (omega arith),
          t,
          d,
          z,
          p,
          same_length header (omega arith),
          take-append salt nonce salt_len ls,
          drop-append salt nonce salt_len ls,
        )
        (ap ok (law (cipher.key password salt) nonce text))
