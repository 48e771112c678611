-- ===== src/Flows/Reader/Plain.antt =====
-- Setting the fields of a flow whose text can be read back.
use k_vswitch.Prelude.{◌≡◌, refl, inl, inr, String, true, ℤ, pos, arith}
use k_vswitch.Text.Decimal.RoundTrip.{FitsInt}
use k_vswitch.Flows.{
  Flow, new_flow, ◌▸◌, with_table, with_priority, with_protocol, with_ip_dest, with_ip_src,
  with_tcp_dest_port, with_udp_dest_port, with_action_mod_dl_dest, with_action_tunnel_dest,
  with_action_output_port, with_action_resubmit, with_action_drop, with_action_local,
}
use k_vswitch.Flows.Reader.{is_protocol}
use k_vswitch.Flows.Reader.Words.{is_argument}
use k_vswitch.Flows.Reader.Matches.{IsPlain}

pub IsPlain-head :
    (table priority : ℤ)
    → FitsInt table
    → FitsInt priority
    → IsPlain (new_flow ▸ with_table table ▸ with_priority priority)
IsPlain-head table priority h k =
    let none : FitsInt (pos 0) = omega arith in
    record {
      not_raw = refl;
      protocol = inl refl;
      texts = (refl, (refl, (refl, (refl, (refl, (refl, tt))))));
      numbers = (h, (k, (none, (none, (none, (none, (none, (none, tt))))))));
    }

module _ (f : Flow) (h : IsPlain f) where
  pub IsPlain-with_protocol : (s : String) → is_protocol s ≡ true → IsPlain (with_protocol s f)
  IsPlain-with_protocol s k = record {
    not_raw = h.not_raw;
    protocol = inr k;
    texts = h.texts;
    numbers = h.numbers;
  }

  pub IsPlain-with_ip_dest : (s : String) → is_argument s ≡ true → IsPlain (with_ip_dest s f)
  IsPlain-with_ip_dest s k = record {
    not_raw = h.not_raw;
    protocol = h.protocol;
    texts = (k, h.texts.1);
    numbers = h.numbers;
  }

  pub IsPlain-with_ip_src : (s : String) → is_argument s ≡ true → IsPlain (with_ip_src s f)
  IsPlain-with_ip_src s k = record {
    not_raw = h.not_raw;
    protocol = h.protocol;
    texts = (h.texts.0, (k, h.texts.1.1));
    numbers = h.numbers;
  }

  pub IsPlain-with_tcp_dest_port : (z : ℤ) → FitsInt z → IsPlain (with_tcp_dest_port z f)
  IsPlain-with_tcp_dest_port z k = record {
    not_raw = h.not_raw;
    protocol = h.protocol;
    texts = h.texts;
    numbers = (h.numbers.0, (h.numbers.1.0, (k, h.numbers.1.1.1)));
  }

  pub IsPlain-with_udp_dest_port : (z : ℤ) → FitsInt z → IsPlain (with_udp_dest_port z f)
  IsPlain-with_udp_dest_port z k = record {
    not_raw = h.not_raw;
    protocol = h.protocol;
    texts = h.texts;
    numbers = (
      h.numbers.0,
      (h.numbers.1.0, (h.numbers.1.1.0, (h.numbers.1.1.1.0, (k, h.numbers.1.1.1.1.1)))),
    );
  }

  pub IsPlain-with_action_mod_dl_dest :
      (s : String) → is_argument s ≡ true → IsPlain (with_action_mod_dl_dest s f)
  IsPlain-with_action_mod_dl_dest s k = record {
    not_raw = h.not_raw;
    protocol = h.protocol;
    texts = (
      h.texts.0,
      (
        h.texts.1.0,
        (h.texts.1.1.0, (h.texts.1.1.1.0, (h.texts.1.1.1.1.0, (k, h.texts.1.1.1.1.1.1)))),
      ),
    );
    numbers = h.numbers;
  }

  pub IsPlain-with_action_tunnel_dest :
      (s : String) → is_argument s ≡ true → IsPlain (with_action_tunnel_dest s f)
  IsPlain-with_action_tunnel_dest s k = record {
    not_raw = h.not_raw;
    protocol = h.protocol;
    texts = (h.texts.0, (h.texts.1.0, (h.texts.1.1.0, (h.texts.1.1.1.0, (k, h.texts.1.1.1.1.1)))));
    numbers = h.numbers;
  }

  pub IsPlain-with_action_output_port : (z : ℤ) → FitsInt z → IsPlain (with_action_output_port z f)
  IsPlain-with_action_output_port z k = record {
    not_raw = h.not_raw;
    protocol = h.protocol;
    texts = h.texts;
    numbers = (
      h.numbers.0,
      (
        h.numbers.1.0,
        (
          h.numbers.1.1.0,
          (
            h.numbers.1.1.1.0,
            (h.numbers.1.1.1.1.0, (h.numbers.1.1.1.1.1.0, (k, h.numbers.1.1.1.1.1.1.1))),
          ),
        ),
      ),
    );
  }

  pub IsPlain-with_action_resubmit : (z : ℤ) → FitsInt z → IsPlain (with_action_resubmit z f)
  IsPlain-with_action_resubmit z k = record {
    not_raw = h.not_raw;
    protocol = h.protocol;
    texts = h.texts;
    numbers = (
      h.numbers.0,
      (
        h.numbers.1.0,
        (
          h.numbers.1.1.0,
          (
            h.numbers.1.1.1.0,
            (
              h.numbers.1.1.1.1.0,
              (h.numbers.1.1.1.1.1.0, (h.numbers.1.1.1.1.1.1.0, (k, h.numbers.1.1.1.1.1.1.1.1))),
            ),
          ),
        ),
      ),
    );
  }

  pub IsPlain-with_action_drop : IsPlain (with_action_drop f)
  IsPlain-with_action_drop = record {
    not_raw = h.not_raw;
    protocol = h.protocol;
    texts = h.texts;
    numbers = h.numbers;
  }

  pub IsPlain-with_action_local : IsPlain (with_action_local f)
  IsPlain-with_action_local = record {
    not_raw = h.not_raw;
    protocol = h.protocol;
    texts = h.texts;
    numbers = h.numbers;
  }
