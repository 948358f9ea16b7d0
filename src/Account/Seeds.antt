-- ===== src/Account/Seeds.antt =====
-- The customers that src/modules/account/clients/customer-service-mock.client.ts starts with.
use app_tu_phuc_vu.Prelude.{List, [], ◌∷◌}
use app_tu_phuc_vu.Prelude.Text.{Text, codes}
use app_tu_phuc_vu.Binding.Env.{Classification, sinh_hoat, san_xuat, hanh_chinh}

pub record FullAddress : Type 0 where
  pub street : Text
  pub ward : Text
  pub district : Text
  pub city : Text
  pub full_address : Text

pub record SeedCustomer : Type 0 where
  pub customer_ref : Text
  pub full_name : Text
  pub phone : Text
  pub customer_id : Text
  pub classification : Classification
  pub last_invoice_amount : Text
  pub address_prefix : Text
  pub full_address : FullAddress

unfoldable pub seed_customers : List SeedCustomer
seed_customers =
    record {
      customer_ref = codes "REF-001";
      full_name = codes "Nguyễn Văn Nam";
      phone = codes "987654321";
      customer_id = codes "QN-0912345";
      classification = sinh_hoat;
      last_invoice_amount = codes "247500";
      address_prefix = codes "12 Lê Lợi, Hải Châu";
      full_address = record {
        street = codes "12 Lê Lợi";
        ward = codes "Hải Châu 1";
        district = codes "Hải Châu";
        city = codes "Đà Nẵng";
        full_address = codes "12 Lê Lợi, Hải Châu 1, Hải Châu, Đà Nẵng";
      };
    }
    ∷ record {
      customer_ref = codes "REF-002";
      full_name = codes "Trần Thị Hoa";
      phone = codes "912345678";
      customer_id = codes "QN-0888891";
      classification = san_xuat;
      last_invoice_amount = codes "189000";
      address_prefix = codes "45 Trần Phú, Sơn Trà";
      full_address = record {
        street = codes "45 Trần Phú";
        ward = codes "An Hải Bắc";
        district = codes "Sơn Trà";
        city = codes "Đà Nẵng";
        full_address = codes "45 Trần Phú, An Hải Bắc, Sơn Trà, Đà Nẵng";
      };
    }
    ∷ record {
      customer_ref = codes "REF-003";
      full_name = codes "Lê Minh";
      phone = codes "9777666555";
      customer_id = codes "QN-0777123";
      classification = sinh_hoat;
      last_invoice_amount = codes "312000";
      address_prefix = codes "Lê Lợi, Hải Châu";
      full_address = record {
        street = codes "Lê Lợi";
        ward = codes "Hải Châu 1";
        district = codes "Hải Châu";
        city = codes "Đà Nẵng";
        full_address = codes "Lê Lợi, Hải Châu 1, Hải Châu, Đà Nẵng";
      };
    }
    ∷ record {
      customer_ref = codes "REF-004";
      full_name = codes "Lê Minh Khôi";
      phone = codes "9777666555";
      customer_id = codes "QN-0666001";
      classification = hanh_chinh;
      last_invoice_amount = codes "156000";
      address_prefix = codes "Trần Phú, Sơn Trà";
      full_address = record {
        street = codes "Trần Phú";
        ward = codes "An Hải Bắc";
        district = codes "Sơn Trà";
        city = codes "Đà Nẵng";
        full_address = codes "Trần Phú, An Hải Bắc, Sơn Trà, Đà Nẵng";
      };
    }
    ∷ record {
      customer_ref = codes "REF-005";
      full_name = codes "Phạm Văn Năm";
      phone = codes "666555444";
      customer_id = codes "QN-0555001";
      classification = sinh_hoat;
      last_invoice_amount = codes "100000";
      address_prefix = codes "Hùng Vương, Liên Chiểu";
      full_address = record {
        street = codes "Hùng Vương";
        ward = codes "Hòa Khê";
        district = codes "Liên Chiểu";
        city = codes "Đà Nẵng";
        full_address = codes "Hùng Vương, Hòa Khê, Liên Chiểu, Đà Nẵng";
      };
    }
    ∷ record {
      customer_ref = codes "REF-006";
      full_name = codes "Phạm Thị Sáu";
      phone = codes "666555444";
      customer_id = codes "QN-0666002";
      classification = sinh_hoat;
      last_invoice_amount = codes "110000";
      address_prefix = codes "Điện Biên Phủ, Thanh Khê";
      full_address = record {
        street = codes "Điện Biên Phủ";
        ward = codes "Thanh Khê Đông";
        district = codes "Thanh Khê";
        city = codes "Đà Nẵng";
        full_address = codes "Điện Biên Phủ, Thanh Khê Đông, Thanh Khê, Đà Nẵng";
      };
    }
    ∷ record {
      customer_ref = codes "REF-007";
      full_name = codes "Phạm Văn Bảy";
      phone = codes "666555444";
      customer_id = codes "QN-0777003";
      classification = san_xuat;
      last_invoice_amount = codes "120000";
      address_prefix = codes "Nguyễn Tri Phương, Liên Chiểu";
      full_address = record {
        street = codes "Nguyễn Tri Phương";
        ward = codes "Hòa Khê Bắc";
        district = codes "Liên Chiểu";
        city = codes "Đà Nẵng";
        full_address = codes "Nguyễn Tri Phương, Hòa Khê Bắc, Liên Chiểu, Đà Nẵng";
      };
    }
    ∷ record {
      customer_ref = codes "REF-008";
      full_name = codes "Phạm Thị Tám";
      phone = codes "666555444";
      customer_id = codes "QN-0888004";
      classification = hanh_chinh;
      last_invoice_amount = codes "130000";
      address_prefix = codes "Hải Phòng, Thanh Khê";
      full_address = record {
        street = codes "Hải Phòng";
        ward = codes "Xuân Hà";
        district = codes "Thanh Khê";
        city = codes "Đà Nẵng";
        full_address = codes "Hải Phòng, Xuân Hà, Thanh Khê, Đà Nẵng";
      };
    }
    ∷ []
