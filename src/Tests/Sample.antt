-- ===== src/Tests/Sample.antt =====
-- A model of sales with two dimensions, and a second fact table.
use dux.Base.{true, false, [], ◌∷◌, Text, codes}
use dux.Schema.{Schema, Table, Column, Relationship, new_schema}

abbrev pub sales : Text
sales = codes "lake.Sales"

abbrev pub products : Text
products = codes "lake.Products"

abbrev pub dates : Text
dates = codes "Dates"

abbrev pub returns : Text
returns = codes "lake.Returns"

abbrev pub key_column : Column
key_column = record { name = codes "Key"; data_type = codes "BIGINT"; hidden = false }

abbrev pub plain_table : Text → Table
plain_table name = record {
  name = name;
  sql_name = name;
  is_view = false;
  hidden = false;
  columns = (codes "Key", key_column) ∷ [];
}

abbrev pub sales_products : Relationship
sales_products = record {
  from_table = codes "Sales";
  from_column = codes "ProductKey";
  to_table = codes "Products";
  to_column = codes "Key";
  bidirectional = false;
}

abbrev pub sales_dates : Relationship
sales_dates = record {
  from_table = codes "lake.Sales";
  from_column = codes "DateKey";
  to_table = codes "dates";
  to_column = codes "Key";
  bidirectional = true;
}

abbrev pub returns_dates : Relationship
returns_dates = record {
  from_table = codes "Returns";
  from_column = codes "DateKey";
  to_table = codes "Dates";
  to_column = codes "Key";
  bidirectional = false;
}

abbrev pub sample : Schema
sample = record new_schema {
  tables =
      (sales, plain_table (codes "Sales"))
      ∷ (products, plain_table (codes "Products"))
      ∷ (dates, plain_table dates)
      ∷ (returns, plain_table (codes "Returns"))
      ∷ [];
  relationships = sales_products ∷ sales_dates ∷ returns_dates ∷ [];
}
