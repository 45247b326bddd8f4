-- ===== src/Label/Tests.antt =====
-- Labels and domain names, on concrete strings. `unicode_lower` is the identity, which no test reaches.
use kabanero_events.Prelude.{◌≡◌, ◌≢◌, ◌⊎◌, refl, [], Str, lit, arith, str_eq}
use kabanero_events.Label.{
  is_domain_alnum, is_valid_domain_name_char, is_label_alnum, is_valid_label_char, write_char,
  write_chars, clip, close, finish, index_dots, replace_dots, has_dots, collapse, to_label_name,
  is_ascii, lower, index_slash, join_label, split_label, to_lower, to_domain_name, to_label,
}
use kabanero_events.Label.Domain.{IsDomainName, to_domain_name-IsDomainName}
use kabanero_events.Label.Name.{IsLabelName}
use kabanero_events.Label.Whole.{IsLabel, to_label-IsLabel, to_label_of_both}

abbrev same : Str → Str
same s = s

domain_names :
    (to_domain_name same (lit "My..Host/a_") ≡ lit "my.host.a.0")
    × (to_domain_name same (lit "-a") ≡ lit "0-a")
    × (to_domain_name same (lit "..") ≡ lit "0.0")
unfolding to_domain_name to_lower is_ascii lower write_chars write_char is_domain_alnum
    is_valid_domain_name_char collapse has_dots index_dots replace_dots finish clip close
domain_names = (refl, refl, refl)

labels :
    (to_label same (lit "Kabanero.io/my label") ≡ lit "kabanero.io/my.label")
    × (to_label same (lit "a/") ≡ lit "a")
    × (to_label same (lit "/b_") ≡ lit "b_0")
unfolding to_label to_label_name split_label index_slash join_label str_eq to_domain_name to_lower
    is_ascii lower write_chars write_char is_domain_alnum is_valid_domain_name_char is_label_alnum
    is_valid_label_char collapse has_dots index_dots replace_dots finish clip close
labels = (refl, refl, refl)

io-IsDomainName : IsDomainName (lit "a.io")
unfolding is_domain_alnum is_valid_domain_name_char
io-IsDomainName = record {
  closed = record {
    nonempty = omega arith;
    fits = omega arith;
    valid = (refl, (refl, (refl, (refl, tt))));
    starts = refl;
    ends = refl;
  };
  no_dots = (refl, (refl, (refl, tt)));
}

job-IsLabelName : IsLabelName (lit "Job_1")
unfolding is_label_alnum is_valid_label_char
job-IsLabelName = record {
  nonempty = omega arith;
  fits = omega arith;
  valid = (refl, (refl, (refl, (refl, (refl, tt)))));
  starts = refl;
  ends = refl;
}

to_domain_name-IsDomainName_example :
    ((to_lower same (lit "A..b") ≡ []) × (to_domain_name same (lit "A..b") ≡ []))
    ⊎ ((to_lower same (lit "A..b") ≢ []) × IsDomainName (to_domain_name same (lit "A..b")))
to_domain_name-IsDomainName_example = to_domain_name-IsDomainName same (lit "A..b")

to_label-IsLabel_example : IsLabel (to_label same (lit "Kabanero.io/my label"))
to_label-IsLabel_example = to_label-IsLabel same (lit "Kabanero.io/my label")

to_label_of_both_example : to_label same (lit "a.io/Job_1") ≡ lit "a.io/Job_1"
to_label_of_both_example =
    to_label_of_both same (lit "a.io") (lit "Job_1") io-IsDomainName job-IsLabelName
