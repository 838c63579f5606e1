-- ===== src/Listings/Limits.antt =====
-- core/limits.go: the bounds on a listing; lengths of texts are in bytes.
use openbazaar.Prelude.{ℕ}

abbrev pub title : ℕ
title = 140

abbrev pub description : ℕ
description = 50000

abbrev pub tags : ℕ
tags = 10

abbrev pub categories : ℕ
categories = 10

abbrev pub list_items : ℕ
list_items = 30

abbrev pub filename : ℕ
filename = 255

abbrev pub code : ℕ
code = 20

abbrev pub word : ℕ
word = 40

abbrev pub sentence : ℕ
sentence = 70

abbrev pub coupon_title : ℕ
coupon_title = 70

abbrev pub policy : ℕ
policy = 10000

abbrev pub country_codes : ℕ
country_codes = 255

abbrev pub escrow_timeout : ℕ
escrow_timeout = 1080
