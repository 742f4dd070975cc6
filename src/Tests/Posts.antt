-- ===== src/Tests/Posts.antt =====
-- Posts, with a shift of every byte as the cipher and a digest that counts.
use net_cpp.Base.{
  ℕ, zero, suc, ◌+◌, ◌%◌, ◌≡◌, refl, ap, true, [], ◌∷◌, Bytes, codes, length, replicate,
  length-replicate, arith,
}
use net_cpp.Outcome.{ok, ◌>>=◌}
use net_cpp.Wire.Signed.{RawData, check_raw_msg, process_signed_raw_msg}
use net_cpp.Wire.Request.{Request}
use net_cpp.Wire.Post.{
  EncryptPost, AesKey256, new_post, post_to_signed_raw_data, signed_raw_data_to_post,
}
use net_cpp.Wire.Post.RoundTrip.{padded, signed_raw_data_to_post-post_to_signed_raw_data}

abbrev shift : Bytes → Bytes → Bytes → Bytes
shift k iv [] = []
shift k iv (c ∷ cs) = suc c ∷ shift k iv cs

abbrev lower : ℕ → ℕ
lower zero = 0
lower (suc n) = n

abbrev unshift : Bytes → Bytes → Bytes → Bytes
unshift k iv [] = []
unshift k iv (c ∷ cs) = lower c ∷ unshift k iv cs

unshift-shift : (k iv d : Bytes) → unshift k iv (shift k iv d) ≡ d
unshift-shift k iv [] = refl
unshift-shift k iv (c ∷ cs) = ap (◌∷◌ c) (unshift-shift k iv cs)

length-shift : (k iv d : Bytes) → length (shift k iv d) ≡ length d
length-shift k iv [] = refl
length-shift k iv (c ∷ cs) = ap suc (length-shift k iv cs)

abbrev counting_md5 : Bytes → Bytes
counting_md5 d = (b'0' + length d % 10) ∷ replicate 31 b'0'

length-counting_md5 : (d : Bytes) → length (counting_md5 d) ≡ 32
length-counting_md5 d = omega (arith, length-replicate {A = ℕ} 31 b'0')

abbrev some_key : AesKey256
some_key = record { key0 = 1; key1 = 2; key2 = 3; key3 = 4 }

abbrev hello_post : EncryptPost
hello_post = record {
  client_id = 77;
  t_addr = replicate 16 1;
  p_id = 5;
  type = 12;
  buff = codes "hello";
}

abbrev blank_raw : RawData
blank_raw = record {
  data_bytes = [];
  r_id = 0;
  head = [];
  tail = [];
  info = [];
  msg = [];
  address = replicate 16 0;
}

signed_raw_data_to_post-post_to_signed_raw_data_example :
    (out : RawData) × (post_to_signed_raw_data shift unshift counting_md5 8192 hello_post some_key
        blank_raw
      ≡ ok (out, record hello_post { buff = shift [] [] (padded (codes "hello")) }))
    × (check_raw_msg out.msg ≡ ok true)
    × ((process_signed_raw_msg out.msg blank_raw >>= λ t.
          signed_raw_data_to_post shift unshift counting_md5 t new_post some_key)
        ≡ ok (record hello_post { buff = padded (codes "hello") }))
signed_raw_data_to_post-post_to_signed_raw_data_example =
    signed_raw_data_to_post-post_to_signed_raw_data shift unshift counting_md5
      (λ k iv d h. unshift-shift k iv d) length-shift length-counting_md5 hello_post some_key 8192
      new_post blank_raw blank_raw
      (record {
        client_fits = omega arith;
        id_fits = omega arith;
        type_fits = omega arith;
        addr_size = refl;
        buff_fits = omega arith;
      })
      (omega arith)

abbrev blank_request : Request
blank_request = record { r_id = 1; type = []; data_bytes = []; recv_port = 0; t_addr = [] }
