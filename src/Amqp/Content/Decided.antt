-- ===== src/Amqp/Content/Decided.antt =====
-- Reading a table and reading the properties end with a value or an exception.
use ganshin_mq.Base.{ℕ, ◌/◌, ◌%◌, ◌^◌, Bytes, Option, ◌==◌, nat_eq, refl, ◌≢◌}
use ganshin_mq.Amqp.FieldValue.{FieldTable}
use ganshin_mq.Amqp.Properties.{BasicProperties}
use ganshin_mq.Amqp.Buffer.{
  Result, ok, err, stuck, ◌>>=◌, Read, read_uint8, read_uint64, read_short_string,
}
use ganshin_mq.Amqp.Buffer.Ensures.{
  Ensures, IsDecided, bind-Ensures, if-Ensures, after_uint16, read_uint8-IsDecided,
  read_uint64-IsDecided, read_short_string-IsDecided,
}
use ganshin_mq.Amqp.Table.{read_table}
use ganshin_mq.Amqp.Table.Total.{read_table-total}
use ganshin_mq.Amqp.Content.{read_if, decode}

unstuck : {A : Type 0} (r : Result A) → r ≢ stuck → IsDecided r
unstuck (ok a) h = tt
unstuck (err e) h = tt
unstuck stuck h = h refl

pub read_table-IsDecided : (s : Bytes) → IsDecided (read_table s)
read_table-IsDecided s = unstuck (read_table s) (read_table-total s)

pub after_table {κ} :
    {B : Type κ} (P : B → Type 0) (s : Bytes) (f : FieldTable × Bytes → Result B)
    → ((a : FieldTable × Bytes) → Ensures P (f a))
    → Ensures P (read_table s >>= f)
after_table P s f = bind-Ensures P (read_table s) f (read_table-IsDecided s)

-- An optional property, and then more.
after_if :
    {A B : Type 0} (P : B → Type 0) (bit flags : ℕ) (read : Bytes → Read A) (s : Bytes)
    (f : Option A × Bytes → Result B)
    → ((s : Bytes) → IsDecided (read s))
    → ((a : Option A × Bytes) → Ensures P (f a))
    → Ensures P (read_if bit flags read s >>= f)
unfolding read_if
after_if P bit flags read s f d h =
    bind-Ensures P (read_if bit flags read s) f
      (if-Ensures (λ _. Unit {0}) (flags / 2 ^ bit % 2 == 1) _ _
        (bind-Ensures (λ _. Unit {0}) (read s) _ (d s) (λ a. tt)) tt)
      h

pub decode-IsDecided : (s : Bytes) → IsDecided (decode s)
unfolding decode
decode-IsDecided s =
    let short = λ (t : Bytes). read_short_string-IsDecided t in
    let P = λ (_ : BasicProperties × Bytes). Unit {0} in
    after_uint16 P s _ (λ f. after_if P 15 f.0 read_short_string f.1 _ short (λ a.
      after_if P 14 f.0 read_short_string a.1 _ short (λ a.
        after_if P 13 f.0 read_table a.1 _ read_table-IsDecided (λ a.
          after_if P 12 f.0 read_uint8 a.1 _ read_uint8-IsDecided (λ a.
            after_if P 11 f.0 read_uint8 a.1 _ read_uint8-IsDecided (λ a.
              after_if P 10 f.0 read_short_string a.1 _ short (λ a.
                after_if P 9 f.0 read_short_string a.1 _ short (λ a.
                  after_if P 8 f.0 read_short_string a.1 _ short (λ a.
                    after_if P 7 f.0 read_short_string a.1 _ short (λ a.
                      after_if P 6 f.0 read_uint64 a.1 _ read_uint64-IsDecided (λ a.
                        after_if P 5 f.0 read_short_string a.1 _ short (λ a.
                          after_if P 4 f.0 read_short_string a.1 _ short (λ a.
                            after_if P 3 f.0 read_short_string a.1 _ short (λ a.
                              after_if P 2 f.0 read_short_string a.1 _ short (λ a. tt)))))))))))))))
